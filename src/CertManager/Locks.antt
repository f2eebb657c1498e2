-- ===== src/CertManager/Locks.antt =====
-- data-plane/internal/cert_manager/cert_manager.go: who takes `CertMutex`, and when. The handshakes
-- of any number of connections call `GetCurrentCertificate` while the rotation goroutine reads and
-- replaces the certificate; each access to a field is a step of its own.
pub mod Invariant
pub mod Preserve
pub mod Exclusion
pub mod Progress
pub mod Loop
use sentinel_zero_trust.Common.{ℕ, suc, Bool, true, false, Option, some, List, [], ◌∷◌, ◌++◌}
use sentinel_zero_trust.Grpc.{TlsCertificate, IdentityResult}
use sentinel_zero_trust.CertManager.{CertManager, get_current_certificate}

-- `sync.RWMutex`: how many hold it for reading, and whether it is held for writing.
pub record RwMutex : Type 0 where
  pub readers : ℕ
  pub writer : Bool

-- A call of `GetCurrentCertificate`: before RLock, under it, with the result read and RUnlock still
-- deferred, and after it.
pub data Reader : Type 0 where
  outside holding : Reader
  loaded : Option TlsCertificate → Reader
  returned : Option TlsCertificate → Reader

-- The rotation: it reads the current chain under RLock, or assigns the two fields under Lock.
pub data Rotation : Type 0 where
  idle scanning : Rotation
  writing : IdentityResult → Rotation
  half_written : IdentityResult → Rotation
  written : IdentityResult → Rotation

pub data ReaderMove : CertManager → RwMutex → Reader → RwMutex → Reader → Type 0 where
  r_lock :
      {cm : CertManager} {n : ℕ}
      → ReaderMove cm
          (record { readers = n; writer = false })
          outside
          (record { readers = suc n; writer = false })
          holding
  load :
      {cm : CertManager} {m : RwMutex}
      → ReaderMove cm m holding m (loaded (get_current_certificate cm))
  r_unlock :
      {cm : CertManager} {n : ℕ} {w : Bool} {c : Option TlsCertificate}
      → ReaderMove cm
          (record { readers = suc n; writer = w })
          (loaded c)
          (record { readers = n; writer = w })
          (returned c)

pub data RotationMove
    : CertManager → RwMutex → Rotation → CertManager → RwMutex → Rotation → Type 0 where
  scan_lock :
      {cm : CertManager} {n : ℕ}
      → RotationMove cm
          (record { readers = n; writer = false })
          idle
          cm
          (record { readers = suc n; writer = false })
          scanning
  scan_unlock :
      {cm : CertManager} {n : ℕ} {w : Bool}
      → RotationMove cm
          (record { readers = suc n; writer = w })
          scanning
          cm
          (record { readers = n; writer = w })
          idle
  lock :
      {cm : CertManager} (res : IdentityResult)
      → RotationMove cm
          (record { readers = 0; writer = false })
          idle
          cm
          (record { readers = 0; writer = true })
          (writing res)
  set_cert :
      {cm : CertManager} {m : RwMutex} {res : IdentityResult}
      → RotationMove cm m
          (writing res)
          (record cm { current_cert = some res.certificate })
          m
          (half_written res)
  set_pod_uid :
      {cm : CertManager} {m : RwMutex} {res : IdentityResult}
      → RotationMove cm m
          (half_written res)
          (record cm { current_pod_uid = res.pod_uid })
          m
          (written res)

-- The manager as the fields are now, the calls in progress, the rotation, and the states that the
-- manager had whenever the mutex was released after a write, the latest apart.
pub record System : Type 0 where
  pub mutex : RwMutex
  pub cm : CertManager
  pub readers : List Reader
  pub rotation : Rotation
  pub published : CertManager
  pub earlier : List CertManager

pub data Step : System → System → Type 0 where
  arrives : {s : System} → Step s (record s { readers = outside ∷ s.readers })
  reads :
      {cm p : CertManager} {m n : RwMutex} {a b : Reader} {rot : Rotation} {e : List CertManager}
      (before rest : List Reader)
      → ReaderMove cm m a n b
      → Step
          (record {
            mutex = m;
            cm = cm;
            readers = before ++ a ∷ rest;
            rotation = rot;
            published = p;
            earlier = e;
          })
          (record {
            mutex = n;
            cm = cm;
            readers = before ++ b ∷ rest;
            rotation = rot;
            published = p;
            earlier = e;
          })
  rotates :
      {cm dm p : CertManager} {m n : RwMutex} {a b : Rotation} {rs : List Reader}
      {e : List CertManager}
      → RotationMove cm m a dm n b
      → Step
          (record { mutex = m; cm = cm; readers = rs; rotation = a; published = p; earlier = e })
          (record { mutex = n; cm = dm; readers = rs; rotation = b; published = p; earlier = e })
  unlocks :
      {cm p : CertManager} {k : ℕ} {res : IdentityResult} {rs : List Reader} {e : List CertManager}
      → Step
          (record {
            mutex = record { readers = k; writer = true };
            cm = cm;
            readers = rs;
            rotation = written res;
            published = p;
            earlier = e;
          })
          (record {
            mutex = record { readers = k; writer = false };
            cm = cm;
            readers = rs;
            rotation = idle;
            published = cm;
            earlier = p ∷ e;
          })

-- A manager as `NewProxy` makes it, before any handshake.
abbrev pub fresh : CertManager → System
fresh cm = record {
  mutex = record { readers = 0; writer = false };
  cm = cm;
  readers = [];
  rotation = idle;
  published = cm;
  earlier = [];
}

pub data Reach (cm : CertManager) : System → Type 0 where
  start : Reach cm (fresh cm)
  later : {s t : System} → Reach cm s → Step s t → Reach cm t
