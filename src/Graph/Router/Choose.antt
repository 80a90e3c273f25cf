-- ===== src/Graph/Router/Choose.antt =====
-- One round of the ordered-link router: every link of the pool is kept for later or labelled, and
-- the first one is labelled where its ends are not yet joined.
use mathlib.Core.List.{Permᴰ, append_assoc}
use mathlib.Core.List.Permᴰ
use dlfree.Base.{
  ℕ, ◌+◌, ◌<◌, ◌≤◌, ◌≡◌, ◌≢◌, refl, ap, ◌∙◌, true, false, some, List, [], ◌∷◌, ◌++◌, ◌==◌, length,
  length-append, map, arith, inl, inr, Bool-cases,
}
use dlfree.Std.UnionSet.{
  UnionSet, union_set_is_same_set, union_set_merge_set, union_set_find_set_parent,
}
use dlfree.Std.UnionSet.Merge.{IsUnionSet, union_set_merge_set-joins}
use dlfree.Graph.Link.{Edge, Link}
use dlfree.Graph.Router.Trees.{label_link, choose_links}

pub data Every {A : Type 0} (P : A → Type 0) : List A → Type 0 where
  every_nil : Every P []
  every_cons : {x : A} {xs : List A} → P x → Every P xs → Every P (x ∷ xs)

pub Every-snoc :
    {A : Type 0} {P : A → Type 0} {xs : List A} {x : A} → Every P xs → P x → Every P (xs ++ x ∷ [])
Every-snoc every_nil p = every_cons p every_nil
Every-snoc (every_cons q qs) p = every_cons q (Every-snoc qs p)

pub Every-map :
    {A : Type 0} {P Q : A → Type 0} {xs : List A} → ((x : A) → P x → Q x) → Every P xs → Every Q xs
Every-map f every_nil = every_nil
Every-map f (every_cons {x} p ps) = every_cons (f x p) (Every-map f ps)

-- An item of the union set.
abbrev pub Known : UnionSet → ℕ → Type 0
Known u d = (t : ℕ) × (union_set_find_set_parent u d ≡ some t)

-- Different items are in different sets.
unfoldable pub Apart : UnionSet → Type 0
Apart u =
    (a b t t' : ℕ)
    → a ≢ b
    → union_set_find_set_parent u a ≡ some t
    → union_set_find_set_parent u b ≡ some t'
    → t ≢ t'

pub same_set :
    (u : UnionSet) (a b t t' : ℕ)
    → union_set_find_set_parent u a ≡ some t
    → union_set_find_set_parent u b ≡ some t'
    → union_set_is_same_set u a b ≡ some (t == t')
unfolding union_set_is_same_set
same_set u a b t t' e e' = rw (e, e')

-- After two sets are joined, every item is still one.
unfoldable pub Joined : UnionSet → UnionSet → Type 0
Joined u u' = (d : ℕ) → Known u d → Known u' d

pub merge_ends :
    (u : UnionSet) (a b t t' : ℕ)
    → IsUnionSet u
    → union_set_find_set_parent u a ≡ some t
    → union_set_find_set_parent u b ≡ some t'
    → t ≢ t'
    → (u' : UnionSet) × (union_set_merge_set u a b ≡ some u') × IsUnionSet u' × Joined u u'
unfolding Joined
merge_ends u a b t t' v e e' distinct =
    let (u', run, v', (winner, _, finds)) = union_set_merge_set-joins u a b t t' v e e' distinct in
    (u', run, v', λ d known. (_, finds d known.0 known.1))

module _ {W : Type 0} where
  abbrev pub conns_of_links : List (Link W) → List (Edge W)
  conns_of_links links = map (λ (link : Link W). link.conn) links

  -- The ends of a link are items of the union set.
  abbrev pub EndsKnown : UnionSet → Link W → Type 0
  EndsKnown u link = Known u link.conn.n0 × Known u link.conn.n1

  -- Both levels of a link are one level below `k`.
  abbrev pub Labelled : ℕ → Link W → Type 0
  Labelled k link = (l : ℕ) × (l < k) × (link.level_0 ≡ some l) × (link.level_1 ≡ some l)

  conns-snoc :
      (links : List (Link W)) (link : Link W)
      → conns_of_links (links ++ link ∷ []) ≡ conns_of_links links ++ link.conn ∷ []
  conns-snoc [] link = refl
  conns-snoc (x ∷ links) link = ap (λ xs. x.conn ∷ xs) (conns-snoc links link)

  to_remain :
      (x : Edge W) (p r a : List (Edge W)) → Permᴰ (x ∷ (p ++ (r ++ a))) (p ++ ((r ++ x ∷ []) ++ a))
  to_remain x p r a =
      rw (append_assoc r (x ∷ []) a, ← append_assoc p r (x ∷ a), ← append_assoc p r a)
        (Permᴰ.symm (Permᴰ.middle x (p ++ r) a))

  to_assigned :
      (x : Edge W) (p r a : List (Edge W)) → Permᴰ (x ∷ (p ++ (r ++ a))) (p ++ (r ++ (a ++ x ∷ [])))
  to_assigned x p r a =
      rw (← append_assoc r a (x ∷ []), ← append_assoc p (r ++ a) (x ∷ []))
        (Permᴰ.trans (Permᴰ.cons refl (Permᴰ.symm (Permᴰ.append-nil (p ++ (r ++ a)))))
          (Permᴰ.symm (Permᴰ.middle x (p ++ (r ++ a)) [])))

  pub record Chosen (P : Link W → Type 0) (level : ℕ)
      (pool remain assigned remain' assigned' : List (Link W)) : Type 0 where
    pub perm :
        Permᴰ
          (conns_of_links pool ++ (conns_of_links remain ++ conns_of_links assigned))
          (conns_of_links remain' ++ conns_of_links assigned')
    pub labelled : Every (Labelled (level + 1)) assigned'
    pub kept : Every P remain'
    pub fewer : length remain' ≤ length remain + length pool

  skip_link :
      (level : ℕ) (link : Link W) (pool remain assigned : List (Link W)) (u : UnionSet)
      → union_set_is_same_set u link.conn.n0 link.conn.n1 ≡ some true
      → choose_links level (link ∷ pool) remain assigned u
        ≡ choose_links level pool (remain ++ link ∷ []) assigned u
  unfolding choose_links
  skip_link level link pool remain assigned u e = rw e

  pub take_link :
      (level : ℕ) (link : Link W) (pool remain assigned : List (Link W)) (u u' : UnionSet)
      → union_set_is_same_set u link.conn.n0 link.conn.n1 ≡ some false
      → union_set_merge_set u link.conn.n0 link.conn.n1 ≡ some u'
      → choose_links level (link ∷ pool) remain assigned u
        ≡ choose_links level pool remain (assigned ++ label_link level link ∷ []) u'
  unfolding choose_links
  take_link level link pool remain assigned u u' e e' = rw (e, e')

  pub label-Labelled : (level : ℕ) (link : Link W) → Labelled (level + 1) (label_link level link)
  unfolding label_link
  label-Labelled level link = (level, omega arith, refl, refl)

  label-conn : (level : ℕ) (link : Link W) → (label_link level link).conn ≡ link.conn
  unfolding label_link
  label-conn level link = refl

  -- A link whose ends are joined already stays for later.
  Chosen-skip :
      (P : Link W → Type 0) (level : ℕ) (link : Link W)
      (pool remain assigned remain' assigned' : List (Link W))
      → Chosen P level pool (remain ++ link ∷ []) assigned remain' assigned'
      → Chosen P level (link ∷ pool) remain assigned remain' assigned'
  Chosen-skip P level link pool remain assigned remain' assigned' c = record {
    perm =
        Permᴰ.trans
          (rw (conns-snoc remain link) (
            to_remain link.conn (conns_of_links pool) (conns_of_links remain)
              (conns_of_links assigned)))
          c.perm;
    labelled = c.labelled;
    kept = c.kept;
    fewer = omega (arith, c.fewer, length-append remain (link ∷ []));
  }

  pub Chosen-take :
      (P : Link W → Type 0) (level : ℕ) (link : Link W)
      (pool remain assigned remain' assigned' : List (Link W))
      → Chosen P level pool remain (assigned ++ label_link level link ∷ []) remain' assigned'
      → Chosen P level (link ∷ pool) remain assigned remain' assigned'
  Chosen-take P level link pool remain assigned remain' assigned' c = record {
    perm =
        Permᴰ.trans
          (rw (conns-snoc assigned (label_link level link), label-conn level link)
            (to_assigned link.conn (conns_of_links pool) (conns_of_links remain)
              (conns_of_links assigned)))
          c.perm;
    labelled = c.labelled;
    kept = c.kept;
    fewer = omega (arith, c.fewer);
  }

  choose_none :
      (level : ℕ) (remain assigned : List (Link W)) (u : UnionSet)
      → choose_links level [] remain assigned u ≡ some (remain, assigned)
  unfolding choose_links
  choose_none level remain assigned u = refl

  pub still_known :
      (u u' : UnionSet) (pool : List (Link W))
      → Joined u u'
      → Every (EndsKnown u) pool
      → Every (EndsKnown u') pool
  unfolding Joined
  still_known u u' pool joined ends =
      Every-map (λ link known. (joined _ known.0, joined _ known.1)) ends

  pub choose_links-Chosen :
      (P : Link W → Type 0) (level : ℕ) (pool remain assigned : List (Link W)) (u : UnionSet)
      → IsUnionSet u
      → Every (EndsKnown u) pool
      → Every P pool
      → Every P remain
      → Every (Labelled (level + 1)) assigned
      → (remain' assigned' : List (Link W)) × (choose_links level pool remain assigned u
          ≡ some (remain', assigned'))
        × Chosen P level pool remain assigned remain' assigned'
  choose_links-Chosen P level [] remain assigned u v ends all kept labelled = (
    remain,
    assigned,
    choose_none level remain assigned u,
    record { perm = Permᴰ.refl _; labelled = labelled; kept = kept; fewer = omega arith },
  )
  choose_links-Chosen P level (link ∷ pool) remain assigned u v (every_cons ((t, e), (t', e')) ends)
        (every_cons p all) kept labelled =
      elim (Bool-cases (t == t')) [
        | inl same ↦
            let (remain', assigned', run, c) =
              choose_links-Chosen P level pool (remain ++ link ∷ []) assigned u v ends all
                (Every-snoc kept p) labelled in
            (
              remain',
              assigned',
              skip_link level link pool remain assigned u (same_set u _ _ t t' e e' ∙ ap some same)
                  ∙ run,
              Chosen-skip P level link pool remain assigned remain' assigned' c,
            )
        | inr other ↦
            let (u', merged, v', joined) =
              merge_ends u link.conn.n0 link.conn.n1 t t' v e e' (ground (arith, other)) in
            let (remain', assigned', run, c) =
              choose_links-Chosen P level pool remain (assigned ++ label_link level link ∷ []) u' v'
                (still_known u u' pool joined ends) all kept
                (Every-snoc labelled (label-Labelled level link)) in
            (
              remain',
              assigned',
              take_link level link pool remain assigned u u'
                    (same_set u _ _ t t' e e' ∙ ap some other) merged
                  ∙ run,
              Chosen-take P level link pool remain assigned remain' assigned' c,
            )
      ]
