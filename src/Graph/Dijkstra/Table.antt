-- ===== src/Graph/Dijkstra/Table.antt =====
-- The routing table of `calc_rt`: an entry for every other node, whose path starts at the source,
-- ends in the node, and climbs.
use dlfree.Base.{
  ℕ, zero, suc, ◌+◌, ◌-◌, ◌*◌, ◌<◌, ◌≤◌, ◌≡◌, ◌⊎◌, refl, ap, ◌∙◌, true, Option, none, some, inl,
  inr, arith, Bool-cases, Option-cases, List, [], ◌∷◌, length, take,
}
use mathlib.Core.List.{append-nil}
use dlfree.Struct.Rtable.{Entry, overlay_rtable_entry_create}
use dlfree.Graph.Weight.{Weight}
use dlfree.Graph.Route.{Levels, Climbs, StartsAt}
use dlfree.Graph.Dijkstra.{Dijkstra, choose_level, trace_back, calc_entry}
use dlfree.Graph.Dijkstra.Order.{Le, less_of_less_of_le}
use dlfree.Graph.Dijkstra.Invariant.{trace_back-Climbs}
use dlfree.Graph.Dijkstra.Loop.{Finished}

pub take-length : {A : Type 0} (n : ℕ) (xs : List A) → length xs ≤ n → take n xs ≡ xs
take-length zero [] h = refl
take-length (suc n) [] h = refl
take-length zero (x ∷ xs) h = absurd (omega arith)
take-length (suc n) (x ∷ xs) h = ap (λ ys. x ∷ ys) (take-length n xs (omega arith))

here_or_above : (k l : ℕ) → l ≤ k → (k ≡ l) ⊎ (suc l ≤ k)
here_or_above k l h = ground arith

module _ (w : Weight) where
  open w use {Carrier, less, max_dist, max_width, less_irrefl, le_trans, less_asymm, to_int}

  module _ (n levels src : ℕ) (lv : Levels) (metrics : ℕ → ℕ → Carrier)
      (positive : (u v e : ℕ) → lv u v ≡ some e → less w.zero_weight (metrics u v) ≡ true)
      (m : Carrier) (d : Dijkstra Carrier)
      (fin : Finished w n levels src lv metrics positive m d) where
    -- No level of the node is closer than the largest distance.
    abbrev pub Unreachable : ℕ → Type 0
    Unreachable dst = (k : ℕ) → k < levels → Le w max_dist (d.dist dst k)

    -- What is known of the choice among the levels from `l` on.
    record Choice (dst l : ℕ) (s : Carrier × Option ℕ) : Type 0 where
      least : (k : ℕ) → l ≤ k → k < levels → Le w s.0 (d.dist dst k)
      nothing : s.1 ≡ none → s.0 ≡ max_dist
      chosen : (k : ℕ) → s.1 ≡ some k → (k < levels) × (s.0 ≡ d.dist dst k)
      close : (k : ℕ) → s.1 ≡ some k → less s.0 max_dist ≡ true
      small : Le w s.0 max_dist

    choose_level-Choice :
        (dst l : ℕ) (s : Carrier × Option ℕ)
        → l ≤ levels
        → Choice dst l s
        → Choice dst 0 (choose_level w d dst l s)
    unfolding choose_level
    choose_level-Choice dst zero s h c = c
    choose_level-Choice dst (suc l) (min_dist, level) h c =
        elim (Bool-cases (less (d.dist dst l) min_dist)) [
          | inl near ↦ choose_level-Choice dst l _ (omega arith) (
              rw near (record {
                least = λ k ge lt. elim (here_or_above k l ge) [
                  | inl e ↦ rw e (less_irrefl (d.dist dst l))
                  | inr gt ↦
                      le_trans (d.dist dst l) min_dist (d.dist dst k) (less_asymm _ _ near)
                        (c.least k gt lt)
                ];
                nothing = λ e. absurd (cc);
                chosen = λ k e. ground (arith, e);
                close = λ k e. less_of_less_of_le w (d.dist dst l) min_dist max_dist near c.small;
                small = le_trans (d.dist dst l) min_dist max_dist (less_asymm _ _ near) c.small;
              }))
          | inr far ↦ choose_level-Choice dst l _ (omega arith) (
              rw far (record {
                least = λ k ge lt. elim (here_or_above k l ge) [
                  | inl e ↦ rw e far
                  | inr gt ↦ c.least k gt lt
                ];
                nothing = c.nothing;
                chosen = c.chosen;
                close = c.close;
                small = c.small;
              }))
        ]

    start : (dst l : ℕ) → levels ≤ l → Choice dst l (max_dist, none)
    start dst l h = record {
      least = λ k ge lt. absurd (omega arith);
      nothing = λ e. refl;
      chosen = λ k e. ground (arith, e);
      close = λ k e. ground (arith, e);
      small = less_irrefl max_dist;
    }

    -- What the entry of a destination promises: a path from the source to it that climbs, and the
    -- least of the distances.
    pub record IsRoute (dst : ℕ) (entry : Entry) : Type 0 where
      pub to_dst : entry.dst_pid ≡ dst
      pub starts : StartsAt src entry.path
      pub level : ℕ
      pub climbs : Climbs lv 0 entry.path dst level
      pub hops : length entry.path ≡ entry.hops + 1
      pub metric : entry.metric ≡ to_int (d.dist dst level)
      pub least : (k : ℕ) → k < levels → Le w (d.dist dst level) (d.dist dst k)

    Climbs-nonempty : (path : List ℕ) (p l : ℕ) → Climbs lv 0 path p l → 0 < length path
    Climbs-nonempty [] p l c = absurd c
    Climbs-nonempty (x ∷ path) p l c = omega arith

    chosen : ℕ → Carrier × Option ℕ
    chosen dst = choose_level w d dst d.num_levels (max_dist, none)

    chosen-Choice : (dst : ℕ) → Choice dst 0 (chosen dst)
    unfolding chosen
    chosen-Choice dst =
        let same : d.num_levels ≡ levels = fin.inv.num_levels in
        choose_level-Choice dst d.num_levels (max_dist, none) (omega arith)
          (start dst d.num_levels (omega arith))

    calc_none : (dst : ℕ) → (chosen dst).1 ≡ none → calc_entry w d dst ≡ none
    unfolding calc_entry chosen
    calc_none dst e = rw e

    entry_for : ℕ → List ℕ → Carrier → Entry
    unfolding chosen
    entry_for dst path width =
        overlay_rtable_entry_create dst path (length path - 1) (to_int (chosen dst).0)
          (to_int width)

    calc_some :
        (dst l : ℕ) (path : List ℕ) (width : Carrier)
        → (chosen dst).1 ≡ some l
        → trace_back w d (d.num_nodes * d.num_levels + 1) dst l [] max_width ≡ some (path, width)
        → calc_entry w d dst ≡ some (entry_for dst path width)
    unfolding calc_entry chosen entry_for
    calc_some dst l path width e e' = rw (e, e')

    product : (a b : ℕ) → a ≡ n → b ≡ levels → a * b ≡ n * levels
    product a b e e' = rw (e, e')

    fuel_enough : (hops left : ℕ) → hops + left ≤ n * levels → hops ≤ d.num_nodes * d.num_levels + 1
    fuel_enough hops left h =
        let same = product d.num_nodes d.num_levels fin.inv.num_nodes fin.inv.num_levels in
        omega arith

    is_reached :
        (dst l : ℕ)
        → dst < n
        → l < levels
        → less (d.dist dst l) max_dist ≡ true
        → d.reached dst l ≡ true
    is_reached dst l hd hl close = elim (Bool-cases (d.reached dst l)) [
      | inl e ↦ e
      | inr e ↦ absurd (let far = fin.far dst l hd hl e in cc)
    ]

    entry_for-IsRoute :
        (dst l : ℕ) (path : List ℕ) (width : Carrier)
        → (chosen dst).1 ≡ some l
        → StartsAt src path
        → Climbs lv 0 path dst l
        → IsRoute dst (entry_for dst path width)
    unfolding entry_for overlay_rtable_entry_create
    entry_for-IsRoute dst l path width e starts climbs =
        let c = chosen-Choice dst in
        let some_nodes : 0 < length path = Climbs-nonempty path dst l climbs in
        let whole : take (length path - 1 + 1) path ≡ path =
          take-length (length path - 1 + 1) path (omega arith) in
        let dist = (c.chosen l e).1 in
        record {
          to_dst = refl;
          starts = rw whole starts;
          level = l;
          climbs = rw whole climbs;
          hops = rw whole (omega arith);
          metric = ap to_int dist;
          least = λ k h. rw (← dist) (c.least k (omega arith) h);
        }

    pub calc_entry-IsRoute :
        (dst : ℕ)
        → dst < n
        → ((calc_entry w d dst ≡ none) × Unreachable dst)
          ⊎ ((entry : Entry) × (calc_entry w d dst ≡ some entry) × IsRoute dst entry)
    calc_entry-IsRoute dst hd =
        let c = chosen-Choice dst in
        elim (Option-cases (chosen dst).1) [
          | inl e ↦ inl (calc_none dst e, λ k h. rw (← c.nothing e) (c.least k (omega arith) h))
          | inr (l, e) ↦
              let (hl, dist) = c.chosen l e in
              let t =
                fin.inv.traced dst l hd hl (is_reached dst l hd hl (rw (← dist) (c.close l e))) in
              let (path, width, run, starts, climbs) =
                trace_back-Climbs w n levels src lv metrics d (d.num_nodes * d.num_levels + 1) []
                  max_width t.trace (fuel_enough t.hops _ t.short) in
              inr (
                entry_for dst path width,
                calc_some dst l path width e (run ∙ ap (λ xs. some (xs, width)) (append-nil path)),
                entry_for-IsRoute dst l path width e starts climbs,
              )
        ]
