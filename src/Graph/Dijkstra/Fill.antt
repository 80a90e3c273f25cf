-- ===== src/Graph/Dijkstra/Fill.antt =====
-- The slots of the table that `calc_rt` fills, one for each node but the source.
use dlfree.Base.{
  ℕ, zero, suc, ◌+◌, ◌<◌, ◌≤◌, ◌≡◌, ◌≢◌, ◌⊎◌, refl, ◌∙◌, true, Option, none, some, inl, inr, arith,
  Bool-cases, ◌==◌, length, get_elem?, replicate, length-replicate, length-set, get_elem?-set_self,
  get_elem?-set_ne,
}
use dlfree.Struct.Rtable.{Entry, Rtable, overlay_rtable_create}
use dlfree.Struct.Rtable.Add.{placed, add_entry-free}
use dlfree.Graph.Weight.{Weight}
use dlfree.Graph.Route.{Levels}
use dlfree.Graph.Dijkstra.{Dijkstra, calc_entries, calc_rt}
use dlfree.Graph.Dijkstra.Loop.{Finished}
use dlfree.Graph.Dijkstra.Table.{IsRoute, Unreachable, calc_entry-IsRoute}

get_elem?-replicate : {A : Type 0} (n i : ℕ) (a : A) → i < n → get_elem? (replicate n a) i ≡ some a
get_elem?-replicate zero i a h = absurd (omega arith)
get_elem?-replicate (suc n) zero a h = refl
get_elem?-replicate (suc n) (suc i) a h = get_elem?-replicate n i a (omega arith)

module _ (w : Weight) (n levels src : ℕ) (lv : Levels) (metrics : ℕ → ℕ → w.Carrier)
    (positive : (u v e : ℕ) → lv u v ≡ some e → w.less w.zero_weight (metrics u v) ≡ true)
    (m : w.Carrier) (d : Dijkstra w.Carrier)
    (fin : Finished w n levels src lv metrics positive m d) where
  abbrev Route : ℕ → Entry → Type 0
  Route = IsRoute w n levels src lv metrics positive m d fin

  -- The slots below `k` are filled, but for the source's own; the others are free.
  pub record Filled (k : ℕ) (rt : Rtable) : Type 0 where
    pub own : rt.srcpid ≡ src
    pub size : rt.nentry ≡ n
    pub slots : length rt.entries ≡ n
    pub free : (p : ℕ) → p < n → (p ≡ src) ⊎ (k ≤ p) → get_elem? rt.entries p ≡ some none
    pub filled :
        (p : ℕ)
        → p < k
        → p ≢ src
        → (entry : Entry) × (get_elem? rt.entries p ≡ some (some entry)) × Route p entry

  Filled-create : Filled 0 (overlay_rtable_create src n)
  unfolding overlay_rtable_create
  Filled-create = record {
    own = refl;
    size = refl;
    slots = length-replicate n none;
    free = λ p h _. get_elem?-replicate n p none h;
    filled = λ p h _. absurd (omega arith);
  }

  Filled-skip : (dst : ℕ) (rt : Rtable) → dst ≡ src → Filled dst rt → Filled (dst + 1) rt
  Filled-skip dst rt e f = record {
    own = f.own;
    size = f.size;
    slots = f.slots;
    free = λ p h side. f.free p h (ground (arith, side));
    filled = λ p h other. f.filled p (ground (arith, other)) other;
  }

  Filled-add :
      (dst : ℕ) (rt : Rtable) (entry : Entry)
      → dst < n
      → dst ≢ src
      → Route dst entry
      → Filled dst rt
      → Filled (dst + 1) (placed rt dst entry)
  Filled-add dst rt entry hd other route f =
      let room : dst < length rt.entries = let e = f.slots in omega arith in
      record {
        own = f.own;
        size = f.size;
        slots = length-set rt.entries dst (some entry) ∙ f.slots;
        free = λ p h side.
            get_elem?-set_ne rt.entries {i = dst} {j = p} (some entry)
              (λ e. ground (arith, side, e, other))
            ∙ f.free p h (ground (arith, side));
        filled = λ p h not_src. elim (ℕ_cases p dst h) [
          | inl e ↦ (entry, rw e (get_elem?-set_self rt.entries dst (some entry) room), rw e route)
          | inr lt ↦
              let (entry', at, route') = f.filled p lt not_src in
              (
                entry',
                get_elem?-set_ne rt.entries {i = dst} {j = p} (some entry)
                      (λ e. ground (arith, e, lt))
                    ∙ at,
                route',
              )
        ];
      }
    where
      ℕ_cases : (p dst : ℕ) → p < dst + 1 → (p ≡ dst) ⊎ (p < dst)
      ℕ_cases p dst h = ground arith

  -- A table that is full, or a node that cannot be reached.
  unfoldable pub Complete : Option Rtable → Type 0
  Complete result =
      ((rt : Rtable) × (result ≡ some rt) × Filled n rt)
      ⊎ ((result ≡ none)
          × ((dst : ℕ) × (dst < n)
              × (dst ≢ src)
              × Unreachable w n levels src lv metrics positive m d fin dst))

  calc_entries-Complete :
      (k dst : ℕ) (rt : Rtable)
      → dst + k ≡ n
      → Filled dst rt
      → Complete (calc_entries w d src k dst rt)
  unfolding calc_entries Complete
  calc_entries-Complete zero dst rt e f =
      inl (rt, refl, let e' : dst ≡ n = omega arith in rw (← e') f)
  calc_entries-Complete (suc k) dst rt e f = elim (Bool-cases (dst == src)) [
    | inl own ↦
        rw own
          (calc_entries-Complete k (dst + 1) rt (omega arith) (Filled-skip dst rt (ground arith) f))
    | inr other ↦
        elim (calc_entry-IsRoute w n levels src lv metrics positive m d fin dst (omega arith)) [
          | inl (failed, far) ↦
              inr (rw (other, failed), (dst, omega arith, ground (arith, other), far))
          | inr (entry, made, route) ↦
              let not_src : dst ≢ src = ground (arith, other) in
              rw
                (
                  other,
                  made,
                  add_entry-free dst rt entry (f.free dst (omega arith) (inr (omega arith)))
                      route.to_dst,
                )
                (calc_entries-Complete k (dst + 1) (placed rt dst entry) (omega arith)
                  (Filled-add dst rt entry (omega arith) not_src route f))
        ]
  ]

  from_the_start :
      (k : ℕ) → k ≡ n → Complete (calc_entries w d src k 0 (overlay_rtable_create src k))
  from_the_start k e =
      rw e (calc_entries-Complete n 0 (overlay_rtable_create src n) (omega arith) Filled-create)

  pub calc_rt-Complete : Complete (calc_rt w d src)
  unfolding calc_rt
  calc_rt-Complete = from_the_start d.num_nodes fin.inv.num_nodes
