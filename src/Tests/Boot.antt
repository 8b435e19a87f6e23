-- ===== src/Tests/Boot.antt =====
-- The nucleus boots on one layout of its tables.
use multi_pand_os.Base.{◌≡◌, refl, arith}
use multi_pand_os.Kernel.{Kernel}
use multi_pand_os.Machine.{stop, ldst}
use multi_pand_os.Pcb.Alloc.{entry}
use multi_pand_os.Initial.{main}
use multi_pand_os.Initial.Prepare.{Placed}
use multi_pand_os.Initial.Boot.{Booted, main-Booted}
use multi_pand_os.Tests.Data.{lay, mach, alone, memory, alone-Ring}

lay-Placed : Placed lay
lay-Placed = record {
  size = omega arith;
  head = λ j lt. omega arith;
  semaphores = (
    refl,
    (
      refl,
      (
        refl,
        (
          refl,
          (
            refl,
            (
              refl,
              (
                refl,
                (
                  refl,
                  (
                    refl,
                    (
                      refl,
                      (
                        refl,
                        (
                          refl,
                          (
                            refl,
                            (refl, (refl, (refl, (refl, (refl, (refl, (refl, (refl, tt)))))))),
                          ),
                        ),
                      ),
                    ),
                  ),
                ),
              ),
            ),
          ),
        ),
      ),
    ),
  );
  ready = refl;
  last_null = omega arith;
  last_free = (refl, (refl, (refl, (refl, tt))));
  last_ready = (refl, (refl, (refl, (refl, tt))));
}

main-Booted_example :
    (k' : Kernel) × (main lay mach (memory alone) ≡ stop (ldst (k'.p_s (entry lay 19))) k')
    × Booted lay mach k' (entry lay 19)
main-Booted_example =
    main-Booted lay mach (memory alone)
      (record { take_free = refl; wait_held = refl; give_back = λ w. refl }) lay-Placed
      (record { pcb_free = alone-Ring 100; semd_free = alone-Ring 200 })
