-- ===== src/Std/UnionSet/Forest.antt =====
-- The cells as a forest: heights grow along the parents, so that the walk to the top ends.
use dlfree.Base.{
  ℕ, zero, suc, ◌+◌, ◌<◌, ◌≤◌, ◌≡◌, ◌≢◌, refl, sym, ◌∙◌, none, some, inl, inr, arith, Bool-cases,
  Option-cases, ◌==◌, if◌then◌else◌, max, some_injective, none_ne_some,
}
use dlfree.Std.UnionSet.{Cell, top_parent, tallest, link_cells}

-- The first `n` cells are a forest.
pub record IsForest (cells : ℕ → Cell) (n : ℕ) : Type 0 where
  pub parents : (c p : ℕ) → c < n → (cells c).parent ≡ some p → p < n
  pub heights : (c p : ℕ) → c < n → (cells c).parent ≡ some p → (cells c).height < (cells p).height

-- The tree that a cell belongs to, by its top parent.
pub data Top (cells : ℕ → Cell) : ℕ → ℕ → Type 0 where
  top : {c t : ℕ} → c ≡ t → (cells c).parent ≡ none → Top cells c t
  below : {c p t : ℕ} → (cells c).parent ≡ some p → Top cells p t → Top cells c t

tallest-le : (cells : ℕ → Cell) (n c : ℕ) → c < n → (cells c).height ≤ tallest cells n
unfolding tallest
tallest-le cells zero c h = absurd (omega arith)
tallest-le cells (suc n) c h = elim (Bool-cases (c == n)) [
  | inl same ↦ let same' : c ≡ n = ground arith in rw same' (omega arith)
  | inr other ↦ omega (arith, tallest-le cells n c (ground (arith, other)))
]

-- With fuel for the heights above a cell, the walk from it ends in a cell without parent.
top_parent-Top-fuel :
    (cells : ℕ → Cell) (n fuel c : ℕ)
    → IsForest cells n
    → c < n
    → tallest cells n < fuel + (cells c).height
    → (t : ℕ) × (top_parent cells fuel c ≡ some t) × Top cells c t × (t < n)
unfolding top_parent
top_parent-Top-fuel cells n zero c f h enough = absurd (omega (arith, tallest-le cells n c h))
top_parent-Top-fuel cells n (suc fuel) c f h enough = elim (Option-cases (cells c).parent) [
  | inl e ↦ (c, rw (top_parent, e), top refl e, h)
  | inr (p, e) ↦
      let (t, run, in_tree, lt) =
        top_parent-Top-fuel cells n fuel p f (f.parents c p h e)
          (omega (arith, f.heights c p h e)) in
      (t, rw (top_parent, e) run, below e in_tree, lt)
]

pub top_parent-Top :
    (cells : ℕ → Cell) (n c : ℕ)
    → IsForest cells n
    → c < n
    → (t : ℕ) × (top_parent cells (tallest cells n + 1) c ≡ some t) × Top cells c t × (t < n)
top_parent-Top cells n c f h = top_parent-Top-fuel cells n (tallest cells n + 1) c f h (omega arith)

-- A cell has one top parent, which has no parent.
pub Top-unique : (cells : ℕ → Cell) {c t t' : ℕ} → Top cells c t → Top cells c t' → t ≡ t'
Top-unique cells (top e root) (top e' root') = sym e ∙ e'
Top-unique cells (top e root) (below up rest) = absurd (none_ne_some (sym root ∙ up))
Top-unique cells (below up rest) (top e root) = absurd (none_ne_some (sym root ∙ up))
Top-unique cells {t = t} {t' = t'} (below {p} up rest) (below {p = p'} up' rest') =
    let same : p ≡ p' = some_injective (sym up ∙ up') in Top-unique cells (rw same at rest) rest'

pub Top-root : (cells : ℕ → Cell) {c t : ℕ} → Top cells c t → (cells t).parent ≡ none
Top-root cells (top e root) = rw (← e) root
Top-root cells (below up rest) = Top-root cells rest

module _ (cells : ℕ → Cell) (n child parent : ℕ) (f : IsForest cells n) (hc : child < n)
    (hp : parent < n) (distinct : child ≢ parent) (child_root : (cells child).parent ≡ none)
    (parent_root : (cells parent).parent ≡ none) where
  abbrev linked : ℕ → Cell
  linked = link_cells cells child parent

  link-parent : (c : ℕ) → (linked c).parent ≡ (if c == child then some parent else (cells c).parent)
  unfolding link_cells
  link-parent c = ground (arith, child_root, distinct)

  link-height :
      (c : ℕ)
      → (linked c).height ≡ (
          if c == parent
          then max (cells parent).height ((cells child).height + 1)
          else (cells c).height)
  unfolding link_cells
  link-height c = ground (arith, distinct)

  pub link-IsForest : IsForest linked n
  link-IsForest = record {
    parents = λ c p lt e. ground (arith, link-parent c, e, f.parents c p lt, hp);
    heights = λ c p lt e.
        rw (link-height c, link-height p)
          (ground (arith, link-parent c, e, f.heights c p lt, distinct, parent_root));
  }

  -- The child's tree joins the parent's; the other trees stay.
  pub link-Top : {c t : ℕ} → Top cells c t → Top linked c (if t == child then parent else t)
  link-Top {c} {t} (top e root) = elim (Bool-cases (t == child)) [
    | inl at ↦ rw at (
        below (ground (arith, link-parent c, e, at))
          (top refl (ground (arith, link-parent parent, parent_root, distinct))))
    | inr other ↦ rw other (top e (ground (arith, link-parent c, e, root, other)))
  ]
  link-Top {c} {t} (below {p} up rest) =
      below (ground (arith, link-parent c, up, child_root)) (link-Top rest)
