-- ===== src/Entries/Hash.antt =====
-- entries.go, `personEntry`: the NT hash, which is as good as the password.
use authnd.Base.{
  Bool-cases, is_some, any, All, Text, codes, text_eq_iff, Casing, text_eq, Map, ◌≡◌, refl, inl,
  inr, Bool, true, false, ◌||◌, Option, some, List, [], ◌∷◌, arith,
}
use authnd.Directory.{Identity}
use authnd.Config.{Config, ok, tls}
use authnd.Config.Check.{Formats, check, loopback}
use authnd.Config.Check.Sound.{check-IsServable}
use authnd.Schema.{Attribute, Class, Schema}
use authnd.Roster.{Fold}
use authnd.Server.{Site}
use authnd.Entries.{Entry, Tree}
use authnd.Declared.Added.{has_key}
use authnd.Entries.Built.{
  samba_of, samba_attributes, key_attributes, given_attributes, given_names, attribute, when,
  person_entry,
}
use authnd.Entries.Attributes.{All-append}
use authnd.Entries.Publication.{built_person}
use authnd.Entries.Sound.{built_person-attributes}

abbrev pub nt_password : Text
nt_password = codes "sambaNTPassword"

-- Whether an entry has an attribute of this name.
abbrev pub has_attribute : Text → List Attribute → Bool
has_attribute n as_ = any (λ (a : Attribute). text_eq a.name n) as_

abbrev IsOther : Attribute → Type 0
IsOther a = text_eq a.name nt_password ≡ false

IsOther-none : (as_ : List Attribute) → All IsOther as_ → has_attribute nt_password as_ ≡ false
IsOther-none [] h = refl
IsOther-none (a ∷ as_) (h, hs) = ground (arith, h, IsOther-none as_ hs)

given-IsOther :
    (m : Map (List Text))
    → has_key nt_password (given_names m) ≡ false
    → All IsOther (given_attributes m)
unfolding given_names given_attributes
given-IsOther [] h = tt
given-IsOther ((k, vs) ∷ m) h = (
  ground (arith, h, text_eq_iff k nt_password, text_eq_iff nt_password k),
  given-IsOther m (ground (arith, h)),
)

keys-IsOther : (keys : List Text) → All IsOther (key_attributes keys)
unfolding key_attributes text_eq
keys-IsOther [] = tt
keys-IsOther (k ∷ ks) = (refl, tt)

cn-IsOther : (b : Bool) (name : Text) → All IsOther (when b (attribute (codes "cn") (name ∷ [])))
unfolding text_eq
cn-IsOther true name = (refl, tt)
cn-IsOther false name = tt

samba-IsOther :
    (cfg : Config) (off : Bool) (id : Identity) (given : List Text)
    → cfg.publish_nt_hash ≡ false
    → All IsOther (samba_attributes (samba_of cfg off id) given)
unfolding samba_of samba_attributes
samba-IsOther cfg off id given h = rw h tt

module _ (u : Casing) (fold : Fold) (s : Schema) (tree : Option Tree) (table : Map Class)
    (site : Site) where
  person-IsOther :
      (id : Identity) (skip : List Text)
      → site.cfg.publish_nt_hash ≡ false
      → has_key nt_password (given_names id.attributes) ≡ false
      → All IsOther (person_entry u fold s table site id skip).attributes
  unfolding person_entry text_eq
  person-IsOther id skip unpublished own = (
    refl,
    (
      refl,
      All-append IsOther _ _ (cn-IsOther _ id.name) (
          All-append IsOther _ _ (given-IsOther id.attributes own)
            (All-append IsOther _ _ (samba-IsOther site.cfg _ id _ unpublished) (keys-IsOther _))),
    ),
  )

  hash_published :
      (id : Identity) (e : Entry)
      → has_key nt_password (given_names id.attributes) ≡ false
      → built_person u fold s tree table site id ≡ some e
      → has_attribute nt_password e.attributes ≡ true
      → site.cfg.publish_nt_hash ≡ true
  hash_published id e own built has = elim (Bool-cases site.cfg.publish_nt_hash) [
    | inl y ↦ y
    | inr n ↦
        let other =
          built_person-attributes u fold s tree table site IsOther id e
            (λ skip. person-IsOther id skip n own) built in
        cc (has, IsOther-none e.attributes other)
  ]

  -- Where a person's entry carries an NT hash that its source does not give as an attribute, the
  -- configuration that was accepted publishes hashes, has a samba block, and listens with TLS or
  -- on loopback.
  pub nt_hash_protected :
      (f : Formats) (c : Config) (id : Identity) (e : Entry)
      → check u f c ≡ ok site.cfg
      → has_key nt_password (given_names id.attributes) ≡ false
      → built_person u fold s tree table site id ≡ some e
      → has_attribute nt_password e.attributes ≡ true
      → (site.cfg.publish_nt_hash ≡ true)
        × (is_some site.cfg.samba ≡ true)
        × ((tls site.cfg || loopback site.cfg.listen) ≡ true)
  nt_hash_protected f c id e accepted own built has =
      let p = hash_published id e own built has in
      let servable = check-IsServable u f c site.cfg accepted in
      (p, ground (arith, servable.hash_domain, p), ground (arith, servable.hash_protected, p))
