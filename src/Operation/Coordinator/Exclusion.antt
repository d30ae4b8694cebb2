-- ===== src/Operation/Coordinator/Exclusion.antt =====
-- At most one operation runs (internal/operation/coordinator.go).
use m_ui.Prelude.{
  Bool, not, ℕ, ◌≡◌, refl, ◌∙◌, sym, true, false, ◌&&◌, inl, inr, Option, some, arith,
}
use m_ui.Operation.Coordinator.{
  Coordinator, Pc, idle, requesting, trying, polling, giving_up, locked, running, unlocking,
  deactivating, returning, System, pick, Reachable, at_start, later,
}
use m_ui.Operation.Coordinator.Invariant.{
  owns, Owned, Fits, Inv, Inv-initial, Inv-move, some-injective,
}

pub Reachable-Inv : {home : ℕ → ℕ} {s : System} → Reachable home s → Inv home s
Reachable-Inv {home} at_start = Inv-initial home
Reachable-Inv {home} (later {s} r (pick i move)) = Inv-move home s i (Reachable-Inv r) move

owner_of : (i : ℕ) (p : Pc) (o : Option ℕ) → Owned i p o → owns p ≡ true → o ≡ some i
owner_of i p o (inl h) e = cc
owner_of i p o (inr h) e = h

-- In every reachable state, two callers of any processes that have the lock, running or about to give
-- it back, are one caller.
pub Reachable-unique :
    {home : ℕ → ℕ} {s : System} (i j : ℕ)
    → Reachable home s
    → owns (s.pc i) ≡ true
    → owns (s.pc j) ≡ true
    → i ≡ j
Reachable-unique {home} {s} i j r a b =
    let inv = Reachable-Inv r in
    some-injective (
      sym (owner_of i (s.pc i) s.owner (inv.owned i) a)
      ∙ owner_of j (s.pc j) s.owner (inv.owned j) b)

-- A caller that runs has its coordinator's token, and `Active` is true.
abbrev pub is_shown : Pc → Coordinator → Bool
is_shown running c = not c.token && c.active
is_shown _ c = true

shown : (p : Pc) (c : Coordinator) → Fits p c → is_shown p c ≡ true
shown running c f = ground arith
shown idle c f = refl
shown (requesting m) c f = refl
shown (trying m) c f = refl
shown (polling m) c f = refl
shown giving_up c f = refl
shown locked c f = refl
shown unlocking c f = refl
shown deactivating c f = refl
shown returning c f = refl

-- In every reachable state, a caller that runs has taken its coordinator's token and `Active` is true;
-- and of each process whose token is in the channel, whether a caller runs or not, `Active` is false.
pub Reachable-active :
    {home : ℕ → ℕ} {s : System} (i p : ℕ)
    → Reachable home s
    → (is_shown (s.pc i) (s.coordinator (home i)) ≡ true)
      × (((s.coordinator p).token && (s.coordinator p).active) ≡ false)
Reachable-active {home} {s} i p r =
    let inv = Reachable-Inv r in (shown (s.pc i) (s.coordinator (home i)) (inv.fits i), inv.quiet p)
