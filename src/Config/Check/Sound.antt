-- ===== src/Config/Check/Sound.antt =====
-- What holds of every configuration that `check` accepts.
use authnd.Base.{
  ◌==◌, is_some, length, All, Text, is_empty, Casing, to_lower, ℤ, pos, negsuc, zero, suc, ◌≡◌,
  refl, ◌⊎◌, inl, inr, true, false, not, ◌&&◌, ◌||◌, Option, none, some, List, [], ◌∷◌, arith,
}
use authnd.Config.{Config, Address, ReaderBlock, MfaBlock, ok, tls}
use authnd.Config.Limits.{check_limits, limits, AreUsable, limits-AreUsable}
use authnd.Config.Samba.{check_samba, check_samba-nt_hash}
use authnd.Config.Kerberos.{check_kerberos, check_kerberos-mfa}
use authnd.Config.Check.{
  Formats, loopback, check_reader, check_readers, check_wire, check_blocks, check_mfa, check,
  seen_before,
}

-- The reader has one password, in the block or in a file, and not both.
abbrev pub HasOnePassword : ReaderBlock → Type 0
HasOnePassword r = not (is_empty r.password) ≡ is_empty r.password_file

-- No reader's DN is one of `seen`, or another reader's, ignoring case.
abbrev pub AreDistinct : Casing → List Text → List ReaderBlock → Type 0
AreDistinct u seen [] = Unit
AreDistinct u seen (r ∷ rs) =
    (seen_before (to_lower u r.dn) seen ≡ false) × AreDistinct u (to_lower u r.dn ∷ seen) rs

-- The factors of an mfa block: two, written or as the default.
abbrev pub AsksForTwo : Option MfaBlock → Type 0
AsksForTwo none = Unit
AsksForTwo (some m) = (m.factors ≡ pos 0) ⊎ (m.factors ≡ pos 2)

pub record IsServable (u : Casing) (c : Config) : Type 0 where
  -- an NT hash never crosses a network in the clear, and has a domain for its SID
  pub hash_protected : (not c.publish_nt_hash || (tls c || loopback c.listen)) ≡ true
  pub hash_domain : c.publish_nt_hash ≡ is_some c.samba
  pub upgrade : (not c.start_tls || tls c) ≡ true
  -- a ticket needs one factor, so a realm and an mfa block exclude each other
  pub one_factor_realm : (is_some c.mfa && is_some c.kerberos) ≡ false
  pub two_factors : AsksForTwo c.mfa
  pub readers_proved : All HasOnePassword c.readers
  pub readers_distinct : AreDistinct u [] c.readers
  pub usable : AreUsable (limits c)
  pub somebody : ((length c.users == 0) && (length c.directories == 0)) ≡ false

wire_sound :
    (a : Address) (c : Config)
    → check_wire a c ≡ ok tt
    → ((not c.publish_nt_hash || (tls c || loopback a)) ≡ true)
      × ((not c.start_tls || tls c) ≡ true)
unfolding check_wire
wire_sound a c h = (ground arith, ground arith)

mfa_sound : (m : Option MfaBlock) → check_mfa m ≡ ok tt → AsksForTwo m
unfolding check_mfa
mfa_sound none h = tt
mfa_sound (some m) h = factors m.factors refl
  where
    factors : (n : ℤ) → m.factors ≡ n → (m.factors ≡ pos 0) ⊎ (m.factors ≡ pos 2)
    factors (pos zero) e = inl e
    factors (pos (suc zero)) e = ground arith
    factors (pos (suc (suc zero))) e = inr e
    factors (pos (suc (suc (suc n)))) e = ground arith
    factors (negsuc n) e = ground arith

reader_sound :
    (u : Casing) (seen : List Text) (r : ReaderBlock)
    → check_reader u seen r ≡ ok tt
    → (seen_before (to_lower u r.dn) seen ≡ false) × HasOnePassword r
unfolding check_reader
reader_sound u seen r h = ground arith

readers_sound :
    (u : Casing) (seen : List Text) (rs : List ReaderBlock)
    → check_readers u seen rs ≡ ok tt
    → All HasOnePassword rs × AreDistinct u seen rs
unfolding check_readers
readers_sound u seen [] h = (tt, tt)
readers_sound u seen (r ∷ rs) h =
    let (fresh, one) = reader_sound u seen r (ground arith) in
    let (ones, distinct) = readers_sound u (to_lower u r.dn ∷ seen) rs (ground arith) in
    ((one, ones), (fresh, distinct))

record BlocksFacts (u : Casing) (c : Config) : Type 0 where
  factors : AsksForTwo c.mfa
  proved : All HasOnePassword c.readers
  distinct : AreDistinct u [] c.readers
  somebody : ((length c.users == 0) && (length c.directories == 0)) ≡ false

blocks_sound :
    (u : Casing) (f : Formats) (c : Config) → check_blocks u f c ≡ ok tt → BlocksFacts u c
unfolding check_blocks
blocks_sound u f c h =
    let (ones, fresh) = readers_sound u [] c.readers (ground arith) in
    record {
      factors = mfa_sound c.mfa (ground arith);
      proved = ones;
      distinct = fresh;
      somebody = ground arith;
    }

-- What the steps of `check` said, when all passed.
record Passed (u : Casing) (f : Formats) (c c' : Config) : Type 0 where
  limits_ok : check_limits c ≡ ok tt
  wire_ok : check_wire c'.listen c ≡ ok tt
  samba_ok : check_samba c ≡ ok tt
  blocks_ok : check_blocks u f c ≡ ok tt
  kerberos_ok : check_kerberos u c.mfa c.kerberos ≡ ok c'.kerberos
  completed : c' ≡ record c { listen = c'.listen; kerberos = c'.kerberos }

check-Passed : (u : Casing) (f : Formats) (c c' : Config) → check u f c ≡ ok c' → Passed u f c c'
unfolding check
check-Passed u f c c' h = ground arith

-- Every configuration that `check` accepts is one that can be served: an NT hash is published
-- only over TLS or on loopback and exactly with a samba block, starttls has a certificate, a realm
-- and an mfa block exclude each other, an mfa block asks for two factors, each reader has exactly
-- one password and a DN that no other has ignoring case, the limits are usable, and there is
-- somebody to serve.
pub check-IsServable :
    (u : Casing) (f : Formats) (c c' : Config) → check u f c ≡ ok c' → IsServable u c'
unfolding tls limits
check-IsServable u f c c' h =
    let p = check-Passed u f c c' h in
    let (protected, upgrade) = wire_sound c'.listen c p.wire_ok in
    let b = blocks_sound u f c p.blocks_ok in
    rw p.completed (record {
      hash_protected = protected;
      hash_domain = check_samba-nt_hash c p.samba_ok;
      upgrade = upgrade;
      one_factor_realm = check_kerberos-mfa u c.mfa c.kerberos c'.kerberos p.kerberos_ok;
      two_factors = b.factors;
      readers_proved = b.proved;
      readers_distinct = b.distinct;
      usable = limits-AreUsable c p.limits_ok;
      somebody = b.somebody;
    })
