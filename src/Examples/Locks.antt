-- ===== src/Examples/Locks.antt =====
-- A handshake and a rotation under the mutex of the certificate manager.
use sentinel_zero_trust.Common.{true, false, some, [], ◌∷◌, All}
use sentinel_zero_trust.CertManager.{get_current_certificate}
use sentinel_zero_trust.CertManager.Locks.{
  returned, idle, half_written, r_lock, load, r_unlock, lock, set_cert, set_pod_uid, System,
  arrives, reads, rotates, unlocks, Reach, start, later,
}
use sentinel_zero_trust.CertManager.Locks.Invariant.{IsHistory}
use sentinel_zero_trust.CertManager.Locks.Exclusion.{GetsPublished, readers-GetsPublished}
use sentinel_zero_trust.CertManager.Locks.Progress.{Run, IsFree, mutex_is_freed}
use sentinel_zero_trust.Examples.Data.{old_manager, new_manager, new_cert, old_cert, new_identity}

-- One call has got the old certificate, and the rotation is half through its write.
abbrev half_way : System
half_way = record {
  mutex = record { readers = 0; writer = true };
  cm = record old_manager { current_cert = some new_cert };
  readers = returned (some old_cert) ∷ [];
  rotation = half_written new_identity;
  published = old_manager;
  earlier = [];
}

half_way-Reach : Reach old_manager half_way
unfolding get_current_certificate
half_way-Reach =
    later
      (later
        (later (later (later (later start arrives) (reads [] [] r_lock)) (reads [] [] load))
          (reads [] [] r_unlock))
        (rotates (lock new_identity)))
      (rotates set_cert)

abbrev after_write : System
after_write = record {
  mutex = record { readers = 0; writer = false };
  cm = new_manager;
  readers = returned (some old_cert) ∷ [];
  rotation = idle;
  published = new_manager;
  earlier = old_manager ∷ [];
}

after_write-Reach : Reach old_manager after_write
after_write-Reach = later (later half_way-Reach (rotates set_pod_uid)) unlocks

readers-GetsPublished_example :
    All (GetsPublished after_write) (returned (some old_cert) ∷ [])
    × IsHistory old_manager new_manager (old_manager ∷ [])
readers-GetsPublished_example = readers-GetsPublished after_write-Reach

mutex_is_freed_example : (t : System) × Run half_way t × IsFree t.mutex
mutex_is_freed_example = mutex_is_freed half_way-Reach
