-- ===== src/Asl/Runs/Free.antt =====
-- `outBlocked` of phase1/asl.c on a process that waits alone, against the list of semaphores.
use mathlib.Core.Path.{subst}
use multi_pand_os.Base.{
  sym, ℕ, ◌≡◌, ◌∙◌, refl, Bool, some, List, [], ◌∷◌, ◌++◌, arith, map, out-append,
}
use multi_pand_os.Listx.{list_add, list_del, Links}
use multi_pand_os.Listx.Ring.{Ring, Ring-frame, SameOutside}
use multi_pand_os.Listx.Edit.{list_del-spares}
use multi_pand_os.Kernel.{Kernel, Layout, s_link, s_procq, with_links}
use multi_pand_os.Asl.{out_blocked}
use multi_pand_os.Asl.Out.{out_blocked-last}
use multi_pand_os.Asl.Release.{list_del-list_add}
use multi_pand_os.Asl.Remove.{Waiting, worked_on}
use multi_pand_os.Asl.Spec.{Entry}
use multi_pand_os.Asl.Stored.{
  descs, map-descs, Stored, AllEntries-split, AllEntries-append, AllEntries-frame,
}
use multi_pand_os.Asl.Stored.Tally.{tally-around, tally-cells}
use multi_pand_os.Asl.Locate.{NoEntry}
use multi_pand_os.Asl.Runs.Remove.{Stored-Waiting, Sorted-removed, tally-worked_on}
use multi_pand_os.Asl.Runs.Leave.{Stored-Among}

-- An entry with one process.
abbrev pub lone : (d key p : ℕ) → Entry
lone d key p = record { desc = d; key = key; first = p; others = [] }

pub Entry-lone : (e : Entry) (p : ℕ) → e.first ≡ p → e.others ≡ [] → e ≡ lone e.desc e.key p
Entry-lone e p a b = λ i. record { desc = e.desc; key = e.key; first = a i; others = b i }

module _ {y : Layout} {is_pcb : ℕ → Bool} {k : Kernel} (xs : List Entry) (d key p : ℕ)
    (ys : List Entry) {fs : List ℕ} {f : ℕ → ℕ}
    (w : Stored y is_pcb k
      (record { entries = xs ++ lone d key p ∷ ys; free = fs; sem_of = f })) where
  abbrev cut : Links
  cut = list_del p k.links

  abbrev freed_links : Links
  freed_links = list_add (s_link d) y.semd_free_h (list_del (s_link d) cut)

  waits : Waiting y k d (descs xs) (descs ys) fs p []
  waits = Stored-Waiting xs (lone d key p) ys w

  abbrev actives : List ℕ
  actives = map s_link (descs xs) ++ s_link d ∷ map s_link (descs ys)

  cut_spares : SameOutside (s_procq d ∷ p ∷ []) k.links cut
  cut_spares = list_del-spares (s_procq d) p [] [] waits.queue

  moved :
      Ring freed_links y.semd_h (map s_link (descs xs) ++ map s_link (descs ys))
      × Ring freed_links y.semd_free_h (s_link d ∷ map s_link fs)
      × SameOutside ((y.semd_h ∷ actives) ++ y.semd_free_h ∷ map s_link fs) cut freed_links
  moved =
      list_del-list_add y.semd_h y.semd_free_h (s_link d) (map s_link (descs xs))
        (map s_link (descs ys)) (map s_link fs)
        (Ring-frame y.semd_h actives (s_procq d ∷ p ∷ []) waits.active cut_spares
          waits.queue_active)
        (Ring-frame y.semd_free_h (map s_link fs) (s_procq d ∷ p ∷ []) waits.free cut_spares
          waits.queue_free)
        waits.lists

  same : SameOutside (worked_on y d (descs xs) (descs ys) fs p []) k.links freed_links
  same a o =
      let (off, rest) =
        out-append a (s_procq d ∷ p ∷ []) ((y.semd_h ∷ actives) ++ y.semd_free_h ∷ map s_link fs)
          o in
      let first = cut_spares a off in
      let last = moved.2 a rest in (last.0 ∙ first.0, last.1 ∙ first.1)

  -- Nobody else waits: the semaphore is freed.
  pub out_blocked-lone :
      key ≡ f p
      → NoEntry (f p) xs
      → (k' : Kernel) × (out_blocked y p k ≡ some (some p, k'))
        × Stored y is_pcb k' (record { entries = xs ++ ys; free = d ∷ fs; sem_of = f })
  out_blocked-lone same_key absent =
      let e = lone d key p in
      let k' = with_links (λ _. freed_links) k in
      let ws = worked_on y d (descs xs) (descs ys) fs p [] in
      let count_ws = tally-worked_on y d (descs xs) (descs ys) fs p [] in
      let around = tally-around xs e ys fs w.sorted in
      let (before, (at, after)) = AllEntries-split k xs (e ∷ ys) w.entries in
      (
        k',
        out_blocked-last y k p d (descs xs) (descs ys)
            (Stored-Among xs e ys p w same_key absent [] [] refl),
        record {
          active = subst (Ring k'.links y.semd_h) (sym (map-descs s_link xs ys)) moved.0;
          free = moved.1;
          entries =
              AllEntries-append k' xs ys
                (AllEntries-frame xs ws k k' same
                  (λ a. omega (arith, around a, count_ws a, tally-cells xs a)) (λ x i. refl) before)
                (AllEntries-frame ys ws k k' same
                  (λ a. omega (arith, around a, count_ws a, tally-cells ys a)) (λ x i. refl) after);
          remembered = w.remembered;
          sorted = Sorted-removed xs e ys w;
        },
      )
