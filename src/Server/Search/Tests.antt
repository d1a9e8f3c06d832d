-- ===== src/Server/Search/Tests.antt =====
-- A search by a reader.
use authnd.Base.{
  is_some, Text, codes, to_lower, text_eq, get, ◌≡◌, refl, true, false, none, some, [], ◌∷◌,
}
use authnd.Entries.{Entry, valid}
use authnd.Fixtures.{ascii, site, start, env}
use authnd.Server.{success, result, Site, data_too_old}
use authnd.Server.Search.{Request, search}
use authnd.Server.Search.Exact.{wanted, search_success}

abbrev reader_dn : Text
reader_dn = codes "cn=reader,dc=x"

abbrev with_reader : Site
with_reader = record site { readers = (reader_dn, codes "secret") ∷ [] }

abbrev alice_entry : Entry
alice_entry = record {
  name = codes "alice";
  shape = [];
  missing_posix = [];
  no_sid = none;
  declared = [];
  left_off = [];
  dn = codes "uid=alice,ou=people,dc=x";
  group = false;
  attributes = [];
  given = [];
  dropped = [];
  invalid = none;
  judged = none;
}

abbrev everything : Request
everything = record { is_wanted = λ e. true; has_ended = λ i. false; is_written = λ e. true }

search_works :
    (search ascii with_reader env everything reader_dn (alice_entry ∷ []) start).answer
    ≡ some (result success)
unfolding search get text_eq data_too_old authnd.Config.Refresh.max_age valid
search_works = refl

search_success_example :
    (is_some (get (to_lower ascii reader_dn) with_reader.readers) ≡ true)
    × (data_too_old with_reader env start ≡ false)
    × ((search ascii with_reader env everything reader_dn (alice_entry ∷ []) start).sent
        ≡ wanted everything (valid (alice_entry ∷ [])))
search_success_example =
    search_success ascii with_reader env everything reader_dn (alice_entry ∷ []) start search_works
