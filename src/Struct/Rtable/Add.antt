-- ===== src/Struct/Rtable/Add.antt =====
-- `overlay_rtable_add_entry` where the slot is free.
use dlfree.Base.{ℕ, ◌≡◌, ap, ◌∙◌, none, some, get_elem?, set}
use dlfree.Struct.Rtable.{Entry, Rtable, overlay_rtable_add_entry, overlay_rtable_get_entry}

abbrev pub placed : Rtable → ℕ → Entry → Rtable
placed rt dst entry = record rt { entries = set rt.entries dst (some entry) }

pub add_entry-free :
    (dst : ℕ) (rt : Rtable) (entry : Entry)
    → get_elem? rt.entries dst ≡ some none
    → entry.dst_pid ≡ dst
    → overlay_rtable_add_entry rt entry ≡ some (placed rt dst entry)
unfolding overlay_rtable_add_entry overlay_rtable_get_entry
add_entry-free dst rt entry free e = here (rw e free) ∙ ap (λ p. some (placed rt p entry)) e
  where
    here :
        get_elem? rt.entries entry.dst_pid ≡ some none
        → overlay_rtable_add_entry rt entry ≡ some (placed rt entry.dst_pid entry)
    here free' = rw free'
