-- ===== src/Billing/Shelf.antt =====
-- When an item can be sold: `availOf` of packages/domain/src/availability.ts.
use rch.Prelude.{◌≡◌, Bool, true, false, none, ℕ, ◌&&◌}
use rch.Catalog.{Master, OvrMap, kitchen_key, is_on_off}
use rch.Billing.{Availability, off, switched}

abbrev pub is_available : Availability → Bool
is_available (off w) = false
is_available _ = true

-- Nothing is switched off: neither the counter's own switch, nor the kitchen's for a product that
-- the kitchen only switches.
abbrev pub SwitchedOn : Master → OvrMap → ℕ → ℕ → Type 0
SwitchedOn m ovr l it =
    ((is_on_off (m.items it) && switched ovr kitchen_key it) ≡ false) × (ovr l it ≡ none)
