-- ===== src/Server/Search.antt =====
-- server.go: `Search`, over the entries that the current snapshot publishes. The scope and filter
-- tests and the writer of entries are go-authn/ldap's, and parameters.
pub mod Exact
pub mod Tests
use authnd.Base.{
  if◌then◌else◌, is_some, Text, Casing, to_lower, get, ℕ, ◌+◌, Bool, not, Option, none, some, List,
  [], ◌∷◌,
}
use authnd.Entries.{Entry, valid}
use authnd.Server.{
  Code, success, insufficient_access, only_a_reader, stale_data, Result, result, refuse, Site,
  State, Env, data_too_old,
}

-- ldap.InScope with req.Matches; whether the context has ended before the entry of this number; and
-- whether the writer takes an entry.
pub record Request : Type 0 where
  pub is_wanted : Entry → Bool
  pub has_ended : ℕ → Bool
  pub is_written : Entry → Bool

-- What was sent, and the answer; none is an error.
pub record Found : Type 0 where
  pub sent : List Entry
  pub answer : Option Result

sending : Entry → Found → Found
sending e f = record f { sent = e ∷ f.sent }

broken_off : Found
broken_off = record { sent = []; answer = none }

-- The loop of Search, from the entry of number i on.
send_entries : Request → ℕ → List Entry → Found
unfolding sending broken_off
send_entries q i [] = record { sent = []; answer = some (result success) }
send_entries q i (e ∷ es) =
    let rest = send_entries q (i + 1) es in
    if q.has_ended i
    then broken_off
    else if not (q.is_wanted e)
    then rest
    else if q.is_written e
    then sending e rest
    else broken_off

refused_search : Result → Found
refused_search r = record { sent = []; answer = some r }

-- Search, where `built` is the publication of the snapshot.
pub search : {C : Type 0} → Casing → Site → Env → Request → Text → List Entry → State C → Found
unfolding send_entries refused_search
search u site env q bound built st =
    if not (is_some (get (to_lower u bound) site.readers))
    then refused_search (refuse insufficient_access only_a_reader)
    else if data_too_old site env st
    then refused_search (refuse Code.unavailable stale_data)
    else send_entries q 0 (valid built)
