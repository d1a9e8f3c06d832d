-- ===== src/Config/Samba.antt =====
-- samba.go: the checks of the samba block, and the SID that a person is published with.
use authnd.Base.{
  ltb, leb, ◌==◌, if◌then◌else◌, is_some, length, Text, codes, text_eq, split, parse_uint,
  format_uint, ℤ, pos, negsuc, ℕ, zero, suc, ◌+◌, ◌-◌, ◌*◌, ◌%◌, ◌^◌, ◌≤◌, ◌<◌, ◌≡◌, ◌↔◌, Bool,
  true, false, not, ◌||◌, Option, none, some, List, [], ◌∷◌, ◌++◌, arith,
}
use authnd.Config.{
  Config, SambaBlock, Checked, ok, refuse_if, no_samba_block, samba_publishes_nothing,
  bad_domain_sid, bad_rid_base, ◌>>◌,
}
use authnd.Directory.{Identity}

abbrev default_rid_base : ℕ
default_rid_base = 1000

abbrev max_uint32 : ℕ
max_uint32 = 2 ^ 32 - 1

-- One number of a SID: canonical decimal, at most `limit`.
sid_number : ℕ → Text → Option ℕ
sid_number limit p = elim (parse_uint p) [
  | none ↦ none
  | some n ↦ if ltb limit n || not (text_eq p (format_uint n)) then none else some n
]

-- The sub-authorities: the rounds of parseSID's loop after the first.
sub_authorities : List Text → Option (List ℕ)
sub_authorities [] = some []
sub_authorities (p ∷ ps) =
    let rest = sub_authorities ps in
    elim (sid_number max_uint32 p) [
      | none ↦ none
      | some n ↦ elim rest [ none ↦ none | some ns ↦ some (n ∷ ns) ]
    ]

-- parseSID, on the parts between the dashes.
sid_parts : List Text → Option (List ℕ)
sid_parts (s ∷ revision ∷ authority ∷ sub ∷ subs) =
    if not (text_eq s (codes "S")) || not (text_eq revision (codes "1"))
    then none
    else if ltb 14 (length (sub ∷ subs))
    then none
    else elim (sid_number (2 ^ 48 - 1) authority) [
      | none ↦ none
      | some n ↦ elim (sub_authorities (sub ∷ subs)) [ none ↦ none | some ns ↦ some (n ∷ ns) ]
    ]
sid_parts _ = none

-- parseSID
unfoldable pub parse_sid : Text → Option (List ℕ)
unfolding sid_parts sub_authorities sid_number
parse_sid s = sid_parts (split b'-' s)

-- `b != 0 && (b < defaultRIDBase || b%2 != 0)`
bad_base : ℤ → Bool
bad_base (pos zero) = false
bad_base (pos b) = ltb b default_rid_base || not (b % 2 == 0)
bad_base (negsuc b) = true

check_block : Bool → Option SambaBlock → Checked (Unit {0})
check_block publish none = refuse_if publish no_samba_block
check_block publish (some b) = do
  refuse_if (not publish) samba_publishes_nothing
  refuse_if (not (is_some (parse_sid b.domain_sid))) bad_domain_sid
  refuse_if (bad_base b.rid_base) bad_rid_base

-- checkSamba
unfoldable pub check_samba : Config → Checked (Unit {0})
unfolding check_block bad_base
check_samba c = check_block c.publish_nt_hash c.samba

-- ridBase: the configured base as a uint64, or Samba's default.
unfoldable pub rid_base : ℤ → ℕ
rid_base (pos zero) = default_rid_base
rid_base (pos b) = b % 2 ^ 64
rid_base (negsuc b) = 2 ^ 64 - 1 - b

-- `uid*2 + ridBase` as a uint64, unless the uid or the RID is too large.
unfoldable pub algorithmic_rid : ℕ → ℕ → Option ℕ
algorithmic_rid base uid =
    let rid = (uid * 2 + base) % 2 ^ 64 in
    if ltb max_uint32 uid || ltb 0xfffffffe rid then none else some rid

pub data Sid : Type 0 where
  sid : Text → Sid
  no_samba no_uid_number bad_uid_number uid_too_large : Sid

derived_sid : SambaBlock → List Text → Sid
derived_sid b [] = no_uid_number
derived_sid b (u ∷ us) = elim (parse_uint u) [
  | none ↦ bad_uid_number
  | some uid ↦ elim (algorithmic_rid (rid_base b.rid_base) uid) [
    | none ↦ uid_too_large
    | some rid ↦ sid (b.domain_sid ++ b'-' ∷ format_uint rid)
  ]
]

given_sid : SambaBlock → List Text → List Text → Sid
given_sid b (s ∷ ss) uids = sid s
given_sid b [] uids = derived_sid b uids

-- sambaSID
unfoldable pub samba_sid : Option SambaBlock → Identity → Sid
unfolding given_sid derived_sid
samba_sid none id = no_samba
samba_sid (some b) id =
    given_sid b (id.get_attribute (codes "sambaSID")) (id.get_attribute (codes "uidNumber"))

-- A RID is given exactly where 2 * uid + base, computed without overflow, is at most 0xfffffffe,
-- and it is that number; the base is an int64.
pub algorithmic_rid_iff :
    (base uid rid : ℕ)
    → base < 2 ^ 63
    → (algorithmic_rid base uid ≡ some rid) ↔ ((rid ≡ 2 * uid + base) × (rid ≤ 0xfffffffe))
unfolding algorithmic_rid
algorithmic_rid_iff base uid rid h = (λ e. (ground arith, ground arith), λ e. ground arith)

-- What the accepted base is: even, at least 1000, and itself as a uint64.
abbrev pub IsRidBase : ℤ → Type 0
IsRidBase b = (1000 ≤ rid_base b) × (rid_base b % 2 ≡ 0)

base_checked : (n : ℕ) → n < 2 ^ 63 → bad_base (pos n) ≡ false → IsRidBase (pos n)
unfolding bad_base rid_base
base_checked zero lt h = omega arith
base_checked (suc n) lt h = ground arith

derived_sid_lem :
    (b : SambaBlock) (uid : ℕ) (u : Text) (us : List Text)
    → rid_base b.rid_base < 2 ^ 63
    → parse_uint u ≡ some uid
    → derived_sid b (u ∷ us) ≡ (
        if leb (2 * uid + rid_base b.rid_base) 0xfffffffe
        then sid (b.domain_sid ++ b'-' ∷ format_uint (2 * uid + rid_base b.rid_base))
        else uid_too_large)
unfolding derived_sid algorithmic_rid
derived_sid_lem b uid u us lt e = ground arith

rid_base-lt : (n : ℕ) → n < 2 ^ 63 → rid_base (pos n) < 2 ^ 63
unfolding rid_base
rid_base-lt zero h = omega arith
rid_base-lt (suc n) h = ground arith

accepted_base :
    (c : Config) (b : SambaBlock)
    → check_samba c ≡ ok tt
    → c.samba ≡ some b
    → bad_base b.rid_base ≡ false
unfolding check_samba check_block
accepted_base c b h e =
    let h' : check_block c.publish_nt_hash (some b) ≡ ok tt = rw e at h in ground arith

-- With an accepted samba block whose base is an int64, a person with no sambaSID whose uidNumber
-- is a uint64 is published with the domain's SID and the RID 2 * uid + base, where that is at most
-- 0xfffffffe, and with none otherwise; the base is even and at least 1000.
samba_sid_derived :
    (c : Config) (b : SambaBlock) (id : Identity) (n uid : ℕ) (u : Text) (us : List Text)
    → check_samba c ≡ ok tt
    → c.samba ≡ some b
    → b.rid_base ≡ pos n
    → n < 2 ^ 63
    → id.get_attribute (codes "sambaSID") ≡ []
    → id.get_attribute (codes "uidNumber") ≡ u ∷ us
    → parse_uint u ≡ some uid
    → IsRidBase b.rid_base
      × (samba_sid c.samba id ≡ (
          if leb (2 * uid + rid_base b.rid_base) 0xfffffffe
          then sid (b.domain_sid ++ b'-' ∷ format_uint (2 * uid + rid_base b.rid_base))
          else uid_too_large))
unfolding check_samba samba_sid
samba_sid_derived c b id n uid u us checked block base lt no_sid uids number =
    let bad = accepted_base c b checked block in
    (
      rw base (base_checked n lt (rw base at bad)),
      rw (block, no_sid, uids) (derived_sid_lem b uid u us (rw base (rid_base-lt n lt)) number),
    )

-- An accepted configuration has a samba block exactly where it publishes NT hashes.
pub check_samba-nt_hash : (c : Config) → check_samba c ≡ ok tt → c.publish_nt_hash ≡ is_some c.samba
unfolding check_samba check_block
check_samba-nt_hash c h = ground arith
