-- ===== src/CertManager/Locks/Invariant.antt =====
-- How the mutex of the certificate manager, the calls under it and the rotation stand to each other.
use sentinel_zero_trust.Common.{
  ℕ, suc, ◌+◌, ◌≡◌, refl, sym, ◌⊎◌, inr, Bool, true, false, Option, some, none, List, [], ◌∷◌, ◌++◌,
  count, All, All-append, arith,
}
use sentinel_zero_trust.Grpc.{TlsCertificate, IdentityResult}
use sentinel_zero_trust.CertManager.{CertManager, install, get_current_certificate}
use sentinel_zero_trust.CertManager.Locks.{
  Reader, outside, holding, loaded, returned, Rotation, idle, scanning, writing, half_written,
  written, System,
}

abbrev pub is_holding : Reader → Bool
is_holding holding = true
is_holding (loaded c) = true
is_holding outside = false
is_holding (returned c) = false

abbrev pub is_writing : Rotation → Bool
is_writing idle = false
is_writing scanning = false
is_writing (writing res) = true
is_writing (half_written res) = true
is_writing (written res) = true

abbrev pub scans : Rotation → ℕ
scans scanning = 1
scans _ = 0

-- What `install` makes of the manager.
abbrev pub installed : IdentityResult → CertManager → CertManager
installed res cm = (install res (record { cm = cm; token = none })).cm

-- Each published state is the one before it with a whole fetched identity installed.
abbrev pub IsHistory : CertManager → CertManager → List CertManager → Type 0
IsHistory first p [] = p ≡ first
IsHistory first p (q ∷ qs) = ((res : IdentityResult) × (p ≡ installed res q)) × IsHistory first q qs

-- The certificate of one of the states.
abbrev pub IsOneOf : Option TlsCertificate → List CertManager → Type 0
IsOneOf c [] = ⊥
IsOneOf c (p ∷ ps) = (c ≡ get_current_certificate p) ⊎ IsOneOf c ps

-- How the fields stand to the latest published state.
abbrev pub Agrees : Rotation → CertManager → CertManager → Type 0
Agrees (half_written res) cm p = cm ≡ record p { current_cert = some res.certificate }
Agrees (written res) cm p = cm ≡ installed res p
Agrees _ cm p = cm ≡ p

abbrev pub IsOk : CertManager → List CertManager → Reader → Type 0
IsOk cm ps (loaded c) = c ≡ get_current_certificate cm
IsOk cm ps (returned c) = IsOneOf c ps
IsOk cm ps _ = Unit

pub record Inv (first : CertManager) (s : System) : Type 0 where
  pub counts : s.mutex.readers ≡ count is_holding s.readers + scans s.rotation
  pub writer : s.mutex.writer ≡ is_writing s.rotation
  pub alone : s.mutex.writer ≡ true → s.mutex.readers ≡ 0
  pub agrees : Agrees s.rotation s.cm s.published
  pub calls : All (IsOk s.cm (s.published ∷ s.earlier)) s.readers
  pub history : IsHistory first s.published s.earlier

pub All_split :
    {A : Type 0} (P : A → Type 0) (xs ys : List A) → All P (xs ++ ys) → All P xs × All P ys
All_split P [] ys h = (tt, h)
All_split P (x ∷ xs) ys (px, h) = let (hx, hy) = All_split P xs ys h in ((px, hx), hy)

pub All_replace :
    {A : Type 0} (P : A → Type 0) (xs : List A) (x y : A) (ys : List A)
    → (P x → P y)
    → All P (xs ++ x ∷ ys)
    → All P (xs ++ y ∷ ys)
All_replace P xs x y ys f h =
    let (hx, (px, hy)) = All_split P xs (x ∷ ys) h in All-append P xs (y ∷ ys) hx (f px, hy)

pub Agrees-outside :
    (rot : Rotation) {cm p : CertManager} → is_writing rot ≡ false → Agrees rot cm p → cm ≡ p
Agrees-outside idle e h = h
Agrees-outside scanning e h = h
Agrees-outside (writing res) e h = h
Agrees-outside (half_written res) e h = ground arith
Agrees-outside (written res) e h = ground arith

pub not_writing :
    (rot : Rotation) (w : Bool) (n : ℕ)
    → w ≡ is_writing rot
    → (w ≡ true → suc n ≡ 0)
    → is_writing rot ≡ false
not_writing rot true n e h = absurd (omega (arith, h refl))
not_writing rot false n e h = sym e

-- With no call under the mutex, a call stays right whatever the fields become.
pub IsOk-alone :
    (cm dm : CertManager) (ps : List CertManager) (rs : List Reader)
    → count is_holding rs ≡ 0
    → All (IsOk cm ps) rs
    → All (IsOk dm ps) rs
IsOk-alone cm dm ps [] e h = tt
IsOk-alone cm dm ps (outside ∷ rs) e (a, h) = (tt, IsOk-alone cm dm ps rs e h)
IsOk-alone cm dm ps (returned c ∷ rs) e (a, h) = (a, IsOk-alone cm dm ps rs e h)
IsOk-alone cm dm ps (holding ∷ rs) e (a, h) = absurd (omega (arith, e))
IsOk-alone cm dm ps (loaded c ∷ rs) e (a, h) = absurd (omega (arith, e))

pub IsOk-published :
    (cm p : CertManager) (ps : List CertManager) (r : Reader) → IsOk cm ps r → IsOk cm (p ∷ ps) r
IsOk-published cm p ps outside h = h
IsOk-published cm p ps holding h = h
IsOk-published cm p ps (loaded c) h = h
IsOk-published cm p ps (returned c) h = inr h
