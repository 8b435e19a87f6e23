-- ===== src/Pcb/Pools/Steps.antt =====
-- The functions of phase1/pcb.c that move PCBs between the free list, a queue and their users.
use mathlib.Core.Path.{subst}
use multi_pand_os.Base.{
  ℕ, ◌+◌, ◌≤◌, ◌≡◌, ◌∙◌, refl, ap, Bool, true, false, Option, some, List, [], ◌∷◌, ◌++◌, arith,
  ==_refl, has, length, length-append, erase, Bool-cases, inl, inr, Apart,
}
use multi_pand_os.Base.Tally.{
  tally, one_if, tally-append, tally-in, tally-has, has-tally, tally-erase, length-erase-has,
  Distinct-Once, Once-Distinct, Once-Apart,
}
use multi_pand_os.Listx.{list_del}
use multi_pand_os.Listx.Ring.{Ring-frame}
use multi_pand_os.Listx.Edit.{list_del-Ring, list_del-spares}
use multi_pand_os.Kernel.{Kernel, Layout, max_proc, with_links}
use multi_pand_os.Pcb.{free_pcb, insert_proc_q}
use multi_pand_os.Pcb.Alloc.{free_pcb_lem}
use multi_pand_os.Pcb.Queue.{
  IsQueue, insert_proc_q_lem, remove_proc_q_nil, remove_proc_q_cons, out_proc_q_found,
  list_del-erase,
}
use multi_pand_os.Pcb.Pools.{
  Pools, pcbs, Call, release, enqueue, dequeue, drop, move, dequeue_from, Placed, perform,
}

pub one_if_self : (p : ℕ) → one_if p p ≡ 1
one_if_self p = ground (arith, ==_refl p)

pub tally-pcbs :
    (s : Pools) (a : ℕ) → tally a (pcbs s) ≡ tally a s.free + tally a s.ready + tally a s.held
tally-pcbs s a =
    omega (arith, tally-append a s.free (s.ready ++ s.held), tally-append a s.ready s.held)

pub length-pcbs : (s : Pools) → length (pcbs s) ≡ length s.free + length s.ready + length s.held
length-pcbs s =
    omega (arith, length-append s.free (s.ready ++ s.held), length-append s.ready s.held)

-- The same PCBs, each as often.
pub record SamePcbs (s s' : Pools) : Type 0 where
  pub tallies : (a : ℕ) → tally a (pcbs s') ≡ tally a (pcbs s)
  pub many : length (pcbs s') ≡ length (pcbs s)

-- A call's answer, the PCBs' places behind it, and that none is lost.
abbrev pub Does : Layout → ℕ → (ℕ → Bool) → Call → Kernel → Pools → Option ℕ × Pools → Type 0
Does y h node c k s r =
    (k' : Kernel) × (perform y h c k ≡ some (r.0, k')) × Placed y h node k' r.1 × SamePcbs s r.1

pub Placed-moved :
    {y : Layout} {h : ℕ} {node : ℕ → Bool} {k k' : Kernel} {s s' : Pools}
    → Placed y h node k s
    → IsQueue k' y.pcb_free_h s'.free
    → IsQueue k' h s'.ready
    → SamePcbs s s'
    → Placed y h node k' s'
Placed-moved {y} {h} {node} {k} {k'} {s} {s'} w free ready same =
    let whole = λ (t : Pools). y.pcb_free_h ∷ h ∷ pcbs t in
    record {
      free = free;
      ready = ready;
      distinct =
          Once-Distinct (whole s')
            (λ a. omega (arith, same.tallies a, Distinct-Once (whole s) w.distinct a));
      few = omega (arith, same.many, w.few);
      nodes = λ a i.
          w.nodes a
            (tally-has a (whole s) (omega (arith, same.tallies a, tally-in a (whole s') i)));
      inner = λ p i.
          w.inner p (tally-has p (pcbs s) (omega (arith, same.tallies p, tally-in p (pcbs s') i)));
      no_null = w.no_null;
    }

module _ {y : Layout} {h : ℕ} {node : ℕ → Bool} {k : Kernel} {s : Pools}
    (w : Placed y h node k s) where
  pub once :
      (a : ℕ)
      → one_if a y.pcb_free_h + one_if a h + tally a s.free + tally a s.ready + tally a s.held ≤ 1
  once a = omega (arith, Distinct-Once (y.pcb_free_h ∷ h ∷ pcbs s) w.distinct a, tally-pcbs s a)

  -- One of the PCBs that are out.
  held_once :
      (p : ℕ)
      → has p s.held ≡ true
      → (a : ℕ)
      → one_if a y.pcb_free_h + one_if a h + tally a s.free + tally a s.ready + one_if a p ≤ 1
  held_once p i a = omega (arith, once a, tally-erase a p s.held i)

  pub free_ready : Apart (y.pcb_free_h ∷ s.free) (h ∷ s.ready)
  free_ready = Once-Apart (y.pcb_free_h ∷ s.free) (h ∷ s.ready) (λ a. omega (arith, once a))

  ready_free : Apart (h ∷ s.ready) (y.pcb_free_h ∷ s.free)
  ready_free = Once-Apart (h ∷ s.ready) (y.pcb_free_h ∷ s.free) (λ a. omega (arith, once a))

  pub release-Does :
      (p : ℕ) → has p s.held ≡ true → Does y h node (release p) k s (move (release p) s)
  unfolding perform
  release-Does p i =
      let out : has p (y.pcb_free_h ∷ s.free) ≡ false =
        has-tally p (y.pcb_free_h ∷ s.free) (omega (arith, held_once p i p, one_if_self p)) in
      let (back, spared) = free_pcb_lem y k p s.free w.free out in
      let same : SamePcbs s (move (release p) s).1 = record {
        tallies = λ a. omega (
          arith,
          tally-pcbs s a,
          tally-pcbs (move (release p) s).1 a,
          tally-append a s.free (p ∷ []),
          tally-erase a p s.held i,
        );
        many = omega (
          arith,
          length-pcbs s,
          length-pcbs (move (release p) s).1,
          length-append s.free (p ∷ []),
          length-erase-has p s.held i,
        );
      } in
      let off =
        Once-Apart (p ∷ y.pcb_free_h ∷ s.free) (h ∷ s.ready)
          (λ a. omega (arith, held_once p i a)) in
      (
        free_pcb y p k,
        refl,
        Placed-moved w back (Ring-frame h s.ready (p ∷ y.pcb_free_h ∷ s.free) w.ready spared off)
            same,
        same,
      )

  pub enqueue-Does :
      (p : ℕ) → has p s.held ≡ true → Does y h node (enqueue p) k s (move (enqueue p) s)
  unfolding perform
  enqueue-Does p i =
      let out : has p (h ∷ s.ready) ≡ false =
        has-tally p (h ∷ s.ready) (omega (arith, held_once p i p, one_if_self p)) in
      let (queued, spared) = insert_proc_q_lem k h p s.ready w.ready out in
      let same : SamePcbs s (move (enqueue p) s).1 = record {
        tallies = λ a. omega (
          arith,
          tally-pcbs s a,
          tally-pcbs (move (enqueue p) s).1 a,
          tally-append a s.ready (p ∷ []),
          tally-erase a p s.held i,
        );
        many = omega (
          arith,
          length-pcbs s,
          length-pcbs (move (enqueue p) s).1,
          length-append s.ready (p ∷ []),
          length-erase-has p s.held i,
        );
      } in
      let off =
        Once-Apart (p ∷ h ∷ s.ready) (y.pcb_free_h ∷ s.free)
          (λ a. omega (arith, held_once p i a)) in
      (
        insert_proc_q h p k,
        refl,
        Placed-moved w (Ring-frame y.pcb_free_h s.free (p ∷ h ∷ s.ready) w.free spared off) queued
            same,
        same,
      )

  pub dequeue-Does : (ps : List ℕ) → s.ready ≡ ps → Does y h node dequeue k s (dequeue_from ps s)
  unfolding perform
  dequeue-Does [] none_ready = (
    k,
    ap (λ (r : Option ℕ × Kernel). some r)
        (remove_proc_q_nil k h (subst (IsQueue k h) none_ready w.ready)),
    w,
    record { tallies = λ a. refl; many = refl },
  )
  dequeue-Does (p ∷ ps) e =
      let ready = subst (IsQueue k h) e w.ready in
      let k' = with_links (list_del p) k in
      let s' = (dequeue_from (p ∷ ps) s).1 in
      let before = λ (a : ℕ). ap (tally a) e in
      let same : SamePcbs s s' = record {
        tallies = λ a. omega (arith, tally-pcbs s a, tally-pcbs s' a, before a);
        many = omega (arith, length-pcbs s, length-pcbs s', ap (λ (zs : List ℕ). length zs) e);
      } in
      (
        k',
        ap (λ (r : Option ℕ × Kernel). some r) (remove_proc_q_cons k h p ps ready),
        Placed-moved w
            (Ring-frame y.pcb_free_h s.free (h ∷ p ∷ ps) w.free (list_del-spares h p [] ps ready)
              (subst (λ zs. Apart (h ∷ zs) (y.pcb_free_h ∷ s.free)) e ready_free))
            (list_del-Ring h p [] ps ready).0 same,
        same,
      )

  pub drop-Does : (p : ℕ) → Does y h node (drop p) k s (move (drop p) s)
  unfolding perform
  drop-Does p =
      let few : length s.ready ≤ max_proc = omega (arith, w.few, length-pcbs s) in
      let found = out_proc_q_found k h p s.ready w.ready few in
      elim (Bool-cases (has p s.ready)) [
        | inl i ↦ rw i (
            let s' : Pools = record s { ready = erase p s.ready; held = p ∷ s.held } in
            let (rest, alone, spared) = list_del-erase k h p s.ready w.ready i in
            let same : SamePcbs s s' = record {
              tallies =
                  λ a. omega (arith, tally-pcbs s a, tally-pcbs s' a, tally-erase a p s.ready i);
              many = omega (arith, length-pcbs s, length-pcbs s', length-erase-has p s.ready i);
            } in
            (
              with_links (list_del p) k,
              found ∙ rw i refl,
              Placed-moved w (Ring-frame y.pcb_free_h s.free (h ∷ s.ready) w.free spared ready_free)
                  rest same,
              same,
            ))
        | inr o ↦ rw o (k, found ∙ rw o refl, w, record { tallies = λ a. refl; many = refl })
      ]
