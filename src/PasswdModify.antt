-- ===== src/PasswdModify.antt =====
-- password.go: the RFC 3062 password modify request.
pub mod Tests
use authnd.Base.{
  ◌==◌, if◌then◌else◌, Text, is_empty, ℕ, ◌+◌, ◌-◌, ◌≡◌, refl, Bool, true, false, not, ◌&&◌, Option,
  none, some, List, [], ◌∷◌, ◌++◌,
}

-- What asn1-ber decodes: a packet's class and form, its tag and its children, of which the program
-- reads the class, the tag and the octets.
pub record Field : Type 0 where
  pub context : Bool
  pub tag : ℕ
  pub octets : Text

pub record Packet : Type 0 where
  pub universal : Bool
  pub constructed : Bool
  pub sequence : Bool
  pub children : List Field

abbrev tag_user_identity : ℕ
tag_user_identity = 0

abbrev tag_old_passwd : ℕ
tag_old_passwd = 1

abbrev tag_new_passwd : ℕ
tag_new_passwd = 2

-- passwdModify; a field that was not sent is none for the first two and empty for the third.
pub record PasswdModify : Type 0 where
  pub identity : Option Text
  pub old : Option Text
  pub new : Text

abbrev pub no_fields : PasswdModify
no_fields = record { identity = none; old = none; new = [] }

-- One round of the loop over the fields.
set_field : Field → PasswdModify → Option PasswdModify
set_field f r =
    if not f.context
    then none
    else if f.tag == tag_user_identity
    then some (record r { identity = some f.octets })
    else if f.tag == tag_old_passwd
    then some (record r { old = some f.octets })
    else if f.tag == tag_new_passwd
    then some (record r { new = f.octets })
    else none

set_fields : List Field → PasswdModify → Option PasswdModify
set_fields [] r = some r
set_fields (f ∷ fs) r = elim (set_field f r) [ none ↦ none | some r' ↦ set_fields fs r' ]

of_packet : Option Packet → Option PasswdModify
of_packet none = none
of_packet (some p) =
    if p.universal && (p.constructed && p.sequence) then set_fields p.children no_fields else none

-- decodePasswdModify, with ber.DecodePacketErr as `decode`; none is an error.
unfoldable pub decode_passwd_modify : (Text → Option Packet) → Text → Option PasswdModify
unfolding of_packet set_fields set_field
decode_passwd_modify decode [] = some no_fields
decode_passwd_modify decode (c ∷ value) = of_packet (decode (c ∷ value))

-- The fields of a request, as RFC 3062 encodes them: those that are there, in order.
optional_field : ℕ → Option Text → List Field
optional_field tag none = []
optional_field tag (some s) = record { context = true; tag = tag; octets = s } ∷ []

-- A client's request, with the new password where it is not empty.
unfoldable pub encode : PasswdModify → Packet
unfolding optional_field
encode r = record {
  universal = true;
  constructed = true;
  sequence = true;
  children =
      optional_field 0 r.identity
      ++ (optional_field 1 r.old ++ (if is_empty r.new then [] else optional_field 2 (some r.new)));
}

fields_round_trip :
    (i o : Option Text) (n : Text)
    → set_fields (encode (record { identity = i; old = o; new = n })).children no_fields
      ≡ some (record { identity = i; old = o; new = n })
unfolding set_fields set_field encode
fields_round_trip none none [] = refl
fields_round_trip none none (c ∷ n) = refl
fields_round_trip none (some o) [] = refl
fields_round_trip none (some o) (c ∷ n) = refl
fields_round_trip (some i) none [] = refl
fields_round_trip (some i) none (c ∷ n) = refl
fields_round_trip (some i) (some o) [] = refl
fields_round_trip (some i) (some o) (c ∷ n) = refl

-- A request that decodes, by the BER decoder, to the encoding of some fields is read as those
-- fields: absent and empty stay apart for the identity and the old password.
pub decode_passwd_modify-encode :
    (decode : Text → Option Packet) (value : Text) (r : PasswdModify)
    → is_empty value ≡ false
    → decode value ≡ some (encode r)
    → decode_passwd_modify decode value ≡ some r
unfolding decode_passwd_modify encode
decode_passwd_modify-encode decode [] r given e = cc
decode_passwd_modify-encode decode (c ∷ value) r given e =
    rw e (fields_round_trip r.identity r.old r.new)
