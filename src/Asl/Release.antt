-- ===== src/Asl/Release.antt =====
-- A descriptor of phase1/asl.c goes from the active ones to the free ones.
use multi_pand_os.Base.{
  ℕ, ◌≡◌, ◌∙◌, false, List, ◌∷◌, ◌++◌, arith, has, has-differs, has-middle, out-append, Apart,
  Apart-sym, Apart-has, Apart-drop, Distinct-out,
}
use multi_pand_os.Listx.{Links, list_add, list_del}
use multi_pand_os.Listx.Ring.{Ring, SameOutside, Ring-frame}
use multi_pand_os.Listx.Edit.{list_add-Ring, list_del-Ring, list_del-spares}

-- `list_del` and `list_add` of a node `s` between `before` and `after` behind `h`, to the front of
-- the list at `g`.
pub list_del-list_add :
    {l : Links} (h g s : ℕ) (before after fs : List ℕ)
    → Ring l h (before ++ s ∷ after)
    → Ring l g fs
    → Apart (h ∷ before ++ s ∷ after) (g ∷ fs)
    → let m = list_add s g (list_del s l) in
      Ring m h (before ++ after)
      × Ring m g (s ∷ fs)
      × SameOutside ((h ∷ before ++ s ∷ after) ++ g ∷ fs) l m
list_del-list_add {l} h g s before after fs active free apart =
    let whole = h ∷ before ++ s ∷ after in
    let cut = list_del s l in
    let rest = (list_del-Ring h s before after active).0 in
    let spared = list_del-spares h s before after active in
    let here = has-middle s (h ∷ before) after in
    let not_free : has s (g ∷ fs) ≡ false =
      Apart-has s (g ∷ fs) whole (Apart-sym whole (g ∷ fs) apart) here in
    let (put, same) = list_add-Ring s g fs (Ring-frame g fs whole free spared apart) not_free in
    (
      Ring-frame h (before ++ after) (s ∷ g ∷ fs) rest same (
        Distinct-out s (h ∷ before) after active.distinct,
        Apart-sym (h ∷ before ++ after) (g ∷ fs) (Apart-drop s (h ∷ before) after (g ∷ fs) apart),
      ),
      put,
      λ a o.
          let (off, off') = out-append a whole (g ∷ fs) o in
          let first = spared a off in
          let other = has-differs a s whole off here in
          let last = same a (ground (arith, other, off')) in (last.0 ∙ first.0, last.1 ∙ first.1),
    )
