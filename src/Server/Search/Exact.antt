-- ===== src/Server/Search/Exact.antt =====
-- What a search sends.
use authnd.Base.{
  if◌then◌else◌, Bool-cases, is_some, keep, Text, Casing, to_lower, get, ℕ, ◌+◌, ◌≡◌, refl, inl,
  inr, true, false, not, ◌&&◌, some, List, [], ◌∷◌, arith,
}
use authnd.Entries.{Entry, valid}
use authnd.Server.{success, result, Site, State, Env, data_too_old}
use authnd.Server.Search.{Request, send_entries, refused_search, search}

-- The entries that the request is about.
pub wanted : Request → List Entry → List Entry
wanted q es = keep q.is_wanted es

send_entries-all :
    (q : Request) (i : ℕ) (es : List Entry)
    → (send_entries q i es).answer ≡ some (result success)
    → (send_entries q i es).sent ≡ wanted q es
unfolding send_entries wanted
send_entries-all q i [] h = refl
send_entries-all q i (e ∷ es) h = ground (arith, h, send_entries-all q (i + 1) es)

-- The first list is the beginning of the second.
pub IsPrefix : List Entry → List Entry → Type 0
IsPrefix [] es = Unit
IsPrefix (d ∷ ds) [] = ⊥
IsPrefix (d ∷ ds) (e ∷ es) = (d ≡ e) × IsPrefix ds es

send_entries-IsPrefix :
    (q : Request) (i : ℕ) (es : List Entry) → IsPrefix (send_entries q i es).sent (wanted q es)
unfolding send_entries wanted IsPrefix
send_entries-IsPrefix q i [] = tt
send_entries-IsPrefix q i (e ∷ es) = elim (Bool-cases (q.has_ended i)) [
  | inl a ↦ simp (a) tt
  | inr a ↦ elim (Bool-cases (q.is_wanted e)) [
    | inr w ↦ simp (a, w) (send_entries-IsPrefix q (i + 1) es)
    | inl w ↦ elim (Bool-cases (q.is_written e)) [
      | inl t ↦ simp (a, w, t) (refl, send_entries-IsPrefix q (i + 1) es)
      | inr t ↦ simp (a, w, t) tt
    ]
  ]
]

module _ {C : Type 0} (u : Casing) (site : Site) (env : Env) (q : Request) (bound : Text)
    (built : List Entry) (st : State C) where
  -- A search that succeeds was a reader's, over data that is not too old, and sent exactly the
  -- published entries that the request is about, in their order: none twice, none left out, and
  -- none that fails the schema.
  pub search_success :
      (search u site env q bound built st).answer ≡ some (result success)
      → (is_some (get (to_lower u bound) site.readers) ≡ true)
        × (data_too_old site env st ≡ false)
        × ((search u site env q bound built st).sent ≡ wanted q (valid built))
  unfolding search
  search_success h = ground (arith, h, send_entries-all q 0 (valid built))

  -- Whatever becomes of a search, what it has sent is a beginning of the published entries that the
  -- request is about, and it has sent nothing to a session that is not a reader's, or from data that
  -- is too old.
  search-IsPrefix : IsPrefix (search u site env q bound built st).sent (
      if is_some (get (to_lower u bound) site.readers) && not (data_too_old site env st)
      then wanted q (valid built)
      else [])
  unfolding search refused_search IsPrefix
  search-IsPrefix = elim (Bool-cases (is_some (get (to_lower u bound) site.readers))) [
    | inr r ↦ simp (r) tt
    | inl r ↦ elim (Bool-cases (data_too_old site env st)) [
      | inl old ↦ simp (r, old) tt
      | inr new ↦ simp (r, new) (send_entries-IsPrefix q 0 (valid built))
    ]
  ]
