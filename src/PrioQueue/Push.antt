-- ===== src/PrioQueue/Push.antt =====
-- Push.
use mathlib.Core.List.{map-append}
use mathlib.Core.List.Perm
use baamhackl.Base.{
  Bool, true, ℕ, suc, ◌+◌, ◌-◌, ◌<◌, ◌≡◌, refl, List, [], ◌∷◌, ◌++◌, Perm, some, arith, length,
  get_elem?, length-append, get_elem?-append_left, get_elem?-append_end, append_end-perm,
  lt_of_get_elem?, ℕ_discrete, ◌∙◌, sym,
}
use baamhackl.PrioQueue.{Item, PrioQueue, adapter_push, push, up, parent}
use baamhackl.PrioQueue.Swap.{AllFit, entry, entries, IsIndexed, key-congr}
use baamhackl.PrioQueue.Order.{IsUpReady}
use baamhackl.PrioQueue.Order.Up.{up-Restores}
use baamhackl.PrioQueue.Invariant.{IsValid}

module _ {ℓ} {A : Type ℓ} where
  -- The list that Push hands to container/heap.
  abbrev new_item : PrioQueue A → A → Item A
  new_item q a = record { id = q.next_id; value = a; index = some (length q.items) }

  abbrev grown : PrioQueue A → A → List (Item A)
  grown q a = q.items ++ new_item q a ∷ []

  length-grown : (q : PrioQueue A) (a : A) → length (grown q a) ≡ length q.items + 1
  length-grown q a = length-append q.items (new_item q a ∷ [])

  push-some :
      (q : PrioQueue A) (a : A) (ys : List (Item A))
      → up q.less (grown q a) (length q.items) ≡ some ys
      → push q a ≡ some (q.next_id, record q { items = ys; next_id = q.next_id + 1 })
  unfolding push adapter_push
  push-some q a ys e =
      let last : length (grown q a) - 1 ≡ length q.items = omega (arith, length-grown q a) in
      rw (last, e)

  grown-IsIndexed : (q : PrioQueue A) (a : A) → IsIndexed q.items → IsIndexed (grown q a)
  grown-IsIndexed q a h c x e = elim (ℕ_discrete c (length q.items)) [
    | yes here ↦
        let last : get_elem? (grown q a) c ≡ some (new_item q a) =
          rw here (get_elem?-append_end q.items (new_item q a)) in
        ground (arith, last)
    | no ne ↦
        let low : c < length q.items =
          omega (arith, ne, lt_of_get_elem? (grown q a) c x e, length-grown q a) in
        h c x (sym (get_elem?-append_left q.items _ c low) ∙ e)
  ]

  grown-AllFit :
      (fits : A → Bool) (q : PrioQueue A) (a : A)
      → AllFit fits q.items
      → fits a ≡ true
      → AllFit fits (grown q a)
  grown-AllFit fits q a h fit c x e = elim (ℕ_discrete c (length q.items)) [
    | yes here ↦
        let last : get_elem? (grown q a) c ≡ some (new_item q a) =
          rw here (get_elem?-append_end q.items (new_item q a)) in
        ground (arith, last)
    | no ne ↦
        let low : c < length q.items =
          omega (arith, ne, lt_of_get_elem? (grown q a) c x e, length-grown q a) in
        h c x (sym (get_elem?-append_left q.items _ c low) ∙ e)
  ]

module _ {ℓ} {A : Type ℓ} (fits : A → Bool) (rank : A → ℕ) where
  grown-IsUpReady :
      (q : PrioQueue A) (a : A)
      → IsValid fits rank q
      → IsUpReady rank (suc (length q.items)) (grown q a) (length q.items)
  grown-IsUpReady q a v =
      let kept = λ (c : ℕ) (h : c < length q.items).
        key-congr rank (grown q a) q.items c (get_elem?-append_left q.items _ c h) in
      record {
        edges = λ c p l ne.
            rw (kept c (omega arith), kept (parent c) (omega arith)) (v.heap c p (omega arith));
        bridged = omega arith;
      }

  -- `r` is `q` with one more item, behind a pointer that Push returns.
  pub record Added (q : PrioQueue A) (a : A) (r : PrioQueue A) : Type ℓ where
    pub valid : IsValid fits rank r
    pub same : Perm (entries r.items) ((q.next_id, a) ∷ entries q.items)
    pub next : r.next_id ≡ q.next_id + 1

  -- Push on a valid queue never panics; it adds exactly the value, under a new pointer, and the
  -- queue stays valid.
  pub push-Added :
      (q : PrioQueue A) (a : A)
      → IsValid fits rank q
      → fits a ≡ true
      → (r : PrioQueue A) × (push q a ≡ some (q.next_id, r)) × Added q a r
  push-Added q a v fit =
      let size = length-grown q a in
      let (ys, done, heap, r) =
        up-Restores fits rank q.less v.order (suc (length q.items)) (grown q a) (length q.items)
          (omega arith) (omega (arith, size)) (grown-AllFit fits q a v.fitting fit)
          (grown-IsUpReady q a v) in
      (
        record q { items = ys; next_id = q.next_id + 1 },
        push-some q a ys done,
        record {
          valid = record {
            order = v.order;
            fitting = r.fitting fits (grown-AllFit fits q a v.fitting fit);
            heap = λ c p l. heap c p (omega (arith, r.same_length, size));
            indexed = r.indexed (grown-IsIndexed q a v.indexed);
          };
          same =
              Perm.trans r.same_entries (
                rw (map-append entry q.items _) (append_end-perm (entries q.items) (q.next_id, a)));
          next = refl;
        },
      )
