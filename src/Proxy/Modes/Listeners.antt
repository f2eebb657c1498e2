-- ===== src/Proxy/Modes/Listeners.antt =====
-- The listeners that are open when a run ends.
use sentinel_zero_trust.Common.{
  ◌≡◌, refl, ◌⊎◌, inl, inr, Bool, true, false, List, [], ◌∷◌, Text, Result-cases, ok, err,
  if◌then◌else◌,
}
use sentinel_zero_trust.Proxy.Modes.{
  Side, inbound, outbound, ListenEvent, listening, closed, Sockets, listen_both,
}

abbrev pub same_side : Side → Side → Bool
same_side inbound inbound = true
same_side outbound outbound = true
same_side inbound outbound = false
same_side outbound inbound = false

abbrev pub remove : Side → List Side → List Side
remove s [] = []
remove s (t ∷ ts) = if same_side s t then ts else t ∷ remove s ts

-- The listeners that are open after the events, from those open before.
abbrev pub still_open : List Side → List ListenEvent → List Side
still_open sides [] = sides
still_open sides (listening s addr ∷ es) = still_open (s ∷ sides) es
still_open sides (closed s ∷ es) = still_open (remove s sides) es

-- Either a listen call fails, and its error is returned with no listener left open, or both sides
-- listen.
pub listen_both_lem :
    (addr : Side → Text) (wrap : Side → Text → Text) (s : Sockets)
    → ((side : Side) × (e : Text) × ((listen_both addr wrap s).1 ≡ err (wrap side e))
        × (still_open [] (listen_both addr wrap s).0 ≡ []))
      ⊎ (((listen_both addr wrap s).1 ≡ ok tt)
          × (still_open [] (listen_both addr wrap s).0 ≡ outbound ∷ inbound ∷ []))
unfolding listen_both
listen_both_lem addr wrap s = elim (Result-cases s.listen_inbound) [
  | inl (e, q) ↦ inl (inbound, e, rw (q, listen_both) refl, rw (q, listen_both) refl)
  | inr (_, q) ↦ elim (Result-cases s.listen_outbound) [
    | inl (e, p) ↦ inl (outbound, e, rw (q, p, listen_both) refl, rw (q, p, listen_both) refl)
    | inr (_, p) ↦ inr (rw (q, p, listen_both) (refl, refl))
  ]
]
