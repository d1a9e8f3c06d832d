-- ===== src/Certs/Kept.antt =====
-- certs.go: what is served, and what is said of files that do not load.
use mathlib.Core.Path.{subst}
use authnd.Base.{
  ltb, leb, if◌then◌else◌, Bool-cases, ℕ, ◌-◌, ◌≡◌, ◌⊎◌, inl, inr, Bool, true, false, not, ◌&&◌,
  ◌||◌, some, List, [], ◌∷◌, arith,
}
use authnd.Certs.{
  FileIdentity, not_reloaded, no_files, CertStore, Load, Look, same_stamp, same_files, say_line,
  loads, looked, reload_locked, get_certificate, new_cert_store,
}

-- What a look at the files may leave of a store: nothing is tried where the files are those that are
-- served, or those that the last load failed on, and SIGHUP did not ask; a pair that does not load
-- is remembered; one that is served already stays; and another that loads is served.
pub data Reloaded (force : Bool) (l : Look) (s t : CertStore) : Type 0 where
  not_tried :
      force ≡ false
      → (same_files l.identity s.served || same_files l.identity s.failed) ≡ true
      → t.cert ≡ s.cert
      → t.served ≡ s.served
      → t.failed ≡ s.failed
      → Reloaded force l s t
  not_loaded :
      ((same_files l.identity s.served || same_files l.identity s.failed) && not force) ≡ false
      → l.load.is_error ≡ true
      → t.cert ≡ s.cert
      → t.served ≡ s.served
      → t.failed ≡ l.identity
      → Reloaded force l s t
  same_again :
      ((same_files l.identity s.served || same_files l.identity s.failed) && not force) ≡ false
      → l.load.is_error ≡ false
      → same_files l.identity s.served ≡ true
      → t.cert ≡ s.cert
      → t.served ≡ s.served
      → t.failed ≡ s.failed
      → Reloaded force l s t
  replaced :
      ((same_files l.identity s.served || same_files l.identity s.failed) && not force) ≡ false
      → l.load.is_error ≡ false
      → same_files l.identity s.served ≡ false
      → t.cert ≡ l.load.cert
      → t.served ≡ l.identity
      → t.failed ≡ no_files
      → Reloaded force l s t

loads-Reloaded :
    (force : Bool) (l : Look) (s : CertStore)
    → ((same_files l.identity s.served || same_files l.identity s.failed) && not force) ≡ false
    → Reloaded force l s (loads force l.identity l.load (record s { checked = l.now }))
unfolding loads say_line
loads-Reloaded force l s tried = elim (Bool-cases l.load.is_error) [
  | inl e ↦ not_loaded tried e (ground (arith, e)) (ground (arith, e)) (ground (arith, e))
  | inr fine ↦ elim (Bool-cases (same_files l.identity s.served)) [
    | inl e ↦
        same_again tried fine e (ground (arith, e, fine)) (ground (arith, e, fine))
          (ground (arith, e, fine))
    | inr e ↦
        replaced tried fine e (ground (arith, e, fine)) (ground (arith, e, fine))
          (ground (arith, e, fine))
  ]
]

-- Every look, of a handshake or of SIGHUP, leaves the certificate that is served and the files it is
-- known by as they were where the pair does not load, and remembers the files it failed on; puts the
-- new pair and its files in their place where another one loads; and changes nothing where the files
-- load and are those that are served. Without SIGHUP nothing is tried for files that are served or
-- that the last load failed on, and nothing of these changes.
pub reload_locked-Reloaded :
    (force : Bool) (l : Look) (s : CertStore) → Reloaded force l s (reload_locked force l s)
unfolding reload_locked looked
reload_locked-Reloaded force l s =
    elim (Bool-cases
      ((same_files l.identity s.served || same_files l.identity s.failed) && not force)) [
        | inl e ↦
            not_tried (ground (arith, e)) (ground (arith, e)) (ground (arith, e))
              (ground (arith, e)) (ground (arith, e))
        | inr e ↦ subst (Reloaded force l s) (ground (arith, e)) (loads-Reloaded force l s e)
      ]

-- The stores that handshakes and SIGHUPs lead to, with the looks on the way, newest first.
pub data Serves : List Look → CertStore → Type 0 where
  opened : (l : Look) (s : CertStore) → new_cert_store l ≡ some s → Serves (l ∷ []) s
  shakes_hands :
      {ls : List Look} {s : CertStore} (recheck : ℕ) (l : Look)
      → Serves ls s
      → Serves (l ∷ ls) (get_certificate recheck l s)
  hangs_up :
      {ls : List Look} {s : CertStore} (l : Look)
      → Serves ls s
      → Serves (l ∷ ls) (reload_locked true l s)

-- Some look loaded this certificate without an error, from these files.
unfoldable pub IsFrom : List Look → ℕ → FileIdentity → Type 0
IsFrom [] c id = ⊥
IsFrom (l ∷ ls) c id =
    ((l.load.is_error ≡ false) × (c ≡ l.load.cert) × (id ≡ l.identity)) ⊎ IsFrom ls c id

IsFrom-Reloaded :
    (force : Bool) (l : Look) (ls : List Look) (s t : CertStore)
    → Reloaded force l s t
    → IsFrom ls s.cert s.served
    → IsFrom (l ∷ ls) t.cert t.served
unfolding IsFrom
IsFrom-Reloaded force l ls s t (not_tried e g c d f) h = rw (c, d) (inr h)
IsFrom-Reloaded force l ls s t (not_loaded tried e c d f) h = rw (c, d) (inr h)
IsFrom-Reloaded force l ls s t (same_again tried e g c d f) h = rw (c, d) (inr h)
IsFrom-Reloaded force l ls s t (replaced tried e g c d f) h = inl (e, c, d)

due-IsFrom :
    (due : Bool) (l : Look) (ls : List Look) (s : CertStore)
    → IsFrom ls s.cert s.served
    → IsFrom
        (l ∷ ls)
        (if due then reload_locked false l s else s).cert
        (if due then reload_locked false l s else s).served
unfolding IsFrom
due-IsFrom true l ls s h =
    IsFrom-Reloaded false l ls s (reload_locked false l s) (reload_locked-Reloaded false l s) h
due-IsFrom false l ls s h = inr h

opened-IsFrom :
    (l : Look) (s : CertStore) → new_cert_store l ≡ some s → IsFrom (l ∷ []) s.cert s.served
unfolding new_cert_store IsFrom
opened-IsFrom l s e = inl (ground (arith, e), ground (arith, e), ground (arith, e))

-- Whatever the files go through between handshakes and SIGHUPs, the certificate that is served is
-- one that a look loaded without an error, from the files that the store knows it by.
pub Serves-IsFrom : {ls : List Look} {s : CertStore} → Serves ls s → IsFrom ls s.cert s.served
unfolding get_certificate
Serves-IsFrom (opened l s e) = opened-IsFrom l s e
Serves-IsFrom (shakes_hands {ls} {s} recheck l r) =
    due-IsFrom (ltb l.now s.checked || leb recheck (l.now - s.checked)) l ls s (Serves-IsFrom r)
Serves-IsFrom (hangs_up {ls} {s} l r) =
    IsFrom-Reloaded true l ls s (reload_locked true l s) (reload_locked-Reloaded true l s)
      (Serves-IsFrom r)

-- When both files can no longer be read and the store remembers no failure, a handshake's look says
-- nothing of it, since their identity is the one that stands for no failure, and goes on serving the
-- same pair; SIGHUP's look at the same files says that the pair was not reloaded.
pub get_certificate-silent :
    (recheck now : ℕ) (load : Load) (s : CertStore)
    → s.failed ≡ no_files
    → load.is_error ≡ true
    → let l : Look = record { now = now; identity = no_files; load = load } in
      ((get_certificate recheck l s).out ≡ s.out)
      × ((get_certificate recheck l s).cert ≡ s.cert)
      × ((reload_locked true l s).out ≡ not_reloaded ∷ s.out)
unfolding get_certificate reload_locked looked loads say_line same_files same_stamp
get_certificate-silent recheck now load s h e =
    (ground (arith, h), ground (arith, h), ground (arith, h, e))
