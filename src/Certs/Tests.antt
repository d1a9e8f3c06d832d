-- ===== src/Certs/Tests.antt =====
-- A pair that is loaded, and whose files are then removed.
use authnd.Base.{false, codes, ◌≡◌, refl, true, some, [], ◌∷◌}
use authnd.Certs.{
  not_reloaded, FileIdentity, no_files, CertStore, Load, Look, get_certificate, reload_locked,
  new_cert_store,
}
use authnd.Certs.Kept.{
  opened, shakes_hands, IsFrom, Serves-IsFrom, Reloaded, reload_locked-Reloaded,
  get_certificate-silent,
}

abbrev pair : FileIdentity
pair = record { cert = some (codes "c"); key = some (codes "k") }

abbrev first_look : Look
first_look = record { now = 0; identity = pair; load = record { cert = 1; is_error = false } }

abbrev garbage : Load
garbage = record { cert = 0; is_error = true }

abbrev files_removed : Look
files_removed = record { now = 9; identity = no_files; load = garbage }

abbrev first_store : CertStore
first_store = record { cert = 1; served = pair; failed = no_files; checked = 0; out = [] }

is_open : new_cert_store first_look ≡ some first_store
unfolding new_cert_store
is_open = refl

reload_locked-Reloaded_example :
    Reloaded true files_removed first_store (reload_locked true files_removed first_store)
reload_locked-Reloaded_example = reload_locked-Reloaded true files_removed first_store

Serves-IsFrom_example :
    IsFrom
      (files_removed ∷ first_look ∷ [])
      (get_certificate 5 files_removed first_store).cert
      (get_certificate 5 files_removed first_store).served
Serves-IsFrom_example =
    Serves-IsFrom (shakes_hands 5 files_removed (opened first_look first_store is_open))

abbrev both_gone : Look
both_gone = record { now = 9; identity = no_files; load = garbage }

get_certificate-silent_example :
    ((get_certificate 5 both_gone first_store).out ≡ [])
    × ((get_certificate 5 both_gone first_store).cert ≡ first_store.cert)
    × ((reload_locked true both_gone first_store).out ≡ not_reloaded ∷ [])
get_certificate-silent_example = get_certificate-silent 5 9 garbage first_store refl refl
