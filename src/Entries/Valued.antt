-- ===== src/Entries/Valued.antt =====
-- entries.go: the values of the attributes of an entry (RFC 4511, 4.1.7).
use authnd.Base.{
  ◌==◌, Bool-cases, length, All, Text, codes, is_empty, Casing, Map, get, ◌≡◌, inl, inr, Bool, true,
  false, Option, some, List, [], ◌∷◌, arith,
}
use authnd.Directory.{Identity}
use authnd.Schema.{Attribute, Class, Schema}
use authnd.Roster.{Fold}
use authnd.Server.{Site, GroupFacts, GroupSnapshot}
use authnd.Entries.{Entry, Tree}
use authnd.Entries.Built.{
  Samba, samba_attributes, key_attributes, given_attributes, attribute, when, person_entry,
  entry_of_group, member_attributes, member_dns, has,
}
use authnd.Entries.Attributes.{All-append}
use authnd.Entries.Publication.{built_person, built_group}
use authnd.Entries.Sound.{built_person-attributes, built_group-attributes}

abbrev pub HasValue : Attribute → Type 0
HasValue a = (length a.values == 0) ≡ false

-- Every attribute that a source gives has a value.
abbrev pub AreValued : Map (List Text) → Type 0
AreValued m = All (λ (a : Text × List Text). (length a.1 == 0) ≡ false) m

given-HasValue : (m : Map (List Text)) → AreValued m → All HasValue (given_attributes m)
unfolding given_attributes
given-HasValue [] h = tt
given-HasValue ((k, vs) ∷ m) (h, hs) = (h, given-HasValue m hs)

one_value : (n v : Text) (vs : List Text) → HasValue (attribute n (v ∷ vs))
one_value n v vs = ground arith

when-HasValue : (b : Bool) (n v : Text) → All HasValue (when b (attribute n (v ∷ [])))
when-HasValue true n v = (one_value n v [], tt)
when-HasValue false n v = tt

keys-HasValue : (keys : List Text) → All HasValue (key_attributes keys)
unfolding key_attributes
keys-HasValue [] = tt
keys-HasValue (k ∷ ks) = (ground arith, tt)

samba-HasValue : (m : Samba) (given : List Text) → All HasValue (samba_attributes m given)
unfolding samba_attributes
samba-HasValue m given = elim (Bool-cases (is_empty m.value)) [
  | inl e ↦ rw e tt
  | inr e ↦ rw e (
      All-append HasValue _ _ (when-HasValue (length given == 0) (codes "sambaSID") m.sid)
        (one_value (codes "sambaNTPassword") m.value [], tt))
]

module _ (u : Casing) (fold : Fold) (s : Schema) (tree : Option Tree) (table : Map Class)
    (site : Site) where
  members-HasValue :
      (posix : Bool) (ms : List Text)
      → All HasValue (member_attributes u fold s table site posix ms)
  unfolding member_attributes member_dns
  members-HasValue posix [] = tt
  members-HasValue true (m ∷ ms) = (ground arith, tt)
  members-HasValue false (m ∷ ms) = (ground arith, tt)

  person-HasValue :
      (id : Identity) (skip : List Text)
      → AreValued id.attributes
      → All HasValue (person_entry u fold s table site id skip).attributes
  unfolding person_entry
  person-HasValue id skip h = (
    ground arith,
    (
      ground arith,
      All-append HasValue _ _ (when-HasValue _ _ id.name) (
          All-append HasValue _ _ (given-HasValue id.attributes h)
            (All-append HasValue _ _ (samba-HasValue _ _) (keys-HasValue _))),
    ),
  )

  group-HasValue :
      (name : Text) (facts : GroupFacts) (skip : List Text)
      → AreValued facts.attributes
      → All HasValue (entry_of_group u fold s table site name skip facts).attributes
  unfolding entry_of_group
  group-HasValue name facts skip h = (
    ground arith,
    (
      ground arith,
      All-append HasValue _ _ (given-HasValue facts.attributes h)
          (members-HasValue (has s facts.attributes (codes "gidNumber")) facts.members),
    ),
  )

  -- Where a source gives no attribute without a value, no entry is published with one: neither a
  -- person's, nor a group's, also of a group that has no members.
  built-HasValue :
      (id : Identity) (g : GroupSnapshot) (name : Text) (facts : GroupFacts) (e f : Entry)
      → AreValued id.attributes
      → AreValued facts.attributes
      → get name g.by ≡ some facts
      → built_person u fold s tree table site id ≡ some e
      → built_group u fold s tree table site g name
          (entry_of_group u fold s table site name [] facts)
        ≡ some f
      → All HasValue e.attributes × All HasValue f.attributes
  built-HasValue id g name facts e f valued group_valued found person group = (
    built_person-attributes u fold s tree table site HasValue id e
        (λ skip. person-HasValue id skip valued) person,
    built_group-attributes u fold s tree table site HasValue g name facts f found
        (λ skip. group-HasValue name facts skip group_valued) group,
  )
