-- ===== src/Fixtures.antt =====
-- A small installation that the tests run on: one person, one reader, no second factor.
use authnd.Base.{
  ◌==◌, if◌then◌else◌, all, All, Text, codes, ascii_lower, ascii_upper, Casing, text_eq, ℕ, ◌+◌,
  ◌≡◌, refl, Bool, true, false, ◌&&◌, Option, none, some, List, [], ◌∷◌, arith,
}
use authnd.Config.{Config, Address, DurationText}
use authnd.Directory.{Identity, proved, wrong, Reply, answered}
use authnd.Factors.{Factor, FactorError, refused, unavailable, World, Count, Policy, Verdict, Mfa}
use authnd.Roster.{Fold}
use authnd.Server.{Site, State, Env}

abbrev pub ascii : Casing
ascii = record {
  lower = ascii_lower;
  lower_ascii = λ c h. refl;
  upper = ascii_upper;
  upper_ascii = λ c h. refl;
}

-- The folding that swaps the case of ASCII letters.
abbrev pub swap_case : Fold
swap_case c = if ascii_lower c == c then ascii_upper c else ascii_lower c

abbrev pub alice : Identity
alice = record {
  ref = 1;
  name = codes "alice";
  source = codes "config";
  can_verify = true;
  can_password = true;
  can_nt_hash = false;
  totp_secret = codes "JBSWY3DP";
  keys = [];
  nt_key = none;
  object_classes = [];
  groups = [];
  attributes = [];
  get_attribute = λ name. [];
}

-- The same person after a password change.
abbrev pub alice_again : Identity
alice_again = record alice { ref = 2 }

abbrev pub config : Config
config = record {
  files = codes "authnd.hcl" ∷ [];
  listen = Address.unset;
  base_dn = codes "dc=x";
  cert_file = [];
  key_file = [];
  start_tls = false;
  publish_nt_hash = false;
  samba = none;
  kerberos = none;
  mfa = none;
  oidc = none;
  readers = [];
  users = [];
  groups = [];
  directories = [];
  refresh = DurationText.unset;
  max_age = DurationText.unset;
  max_connections = none;
  max_connections_per_ip = none;
  operation_timeout = DurationText.unset;
  startup_timeout = DurationText.unset;
}

abbrev pub site : Site
site = record {
  cfg = config;
  people_dn = codes "ou=people,dc=x";
  groups_dn = codes "ou=groups,dc=x";
  readers = [];
  reader_secrets = [];
  policy = record { count = 0; distinct_kinds = false };
}

abbrev pub start : State ℕ
start = record {
  binds = 0;
  snap = record {
    people = record { by_name = (codes "alice", alice) ∷ []; local = codes "alice" ∷ [] };
    groups = record { names = []; by = [] };
    built = 0;
  };
  local = alice ∷ [];
  gen = 0;
  failing = false;
  refreshing = false;
  pending = [];
  codes = 0;
  out = [];
}

-- The source proves the password "pw" of the first `alice`, and nothing else.
abbrev pub reply_of : Identity → Text → Reply
reply_of id given = answered (if text_eq given (codes "pw") && id.ref == 1 then proved else wrong)

abbrev pub env : Env
env = record {
  now = 1;
  reply = reply_of;
  verify_now = λ id given. text_eq given (codes "pw") && id.ref == 1;
  budget_ended = false;
  sha256 = λ t. t;
}

-- A code verifier that counts what it is asked, and accepts the code "1".
abbrev pub counter : Count ℕ
counter n name [] code = (n, some unavailable)
counter n name (s ∷ secret) code = (n + 1, if text_eq code (codes "1") then none else some refused)

abbrev pub no_error : Option FactorError → Bool
no_error none = true
no_error (some e) = false

no_error_lem : (e : Option FactorError) → no_error e ≡ true → e ≡ none
no_error_lem none h = refl
no_error_lem (some e) h = cc

module _ {C : Type 0} where
  -- A policy engine that asks every factor in order.
  unfoldable pub ask_all : List (Factor C) → World C → World C × List (Option FactorError)
  ask_all [] w = (w, [])
  ask_all (f ∷ fs) w = let (w', e) = f.verify w in let (w'', es) = ask_all fs w' in (w'', e ∷ es)

  unfoldable pub verify_all : Policy → List (Factor C) → World C → World C × Verdict
  unfolding ask_all
  verify_all p fs w =
      let (w', es) = ask_all fs w in
      (w', record { accepted = all no_error es; answers = es; error_outage = false })

  pub ask_all-keeps :
      (fs : List (Factor C)) (w : World C) (P : World C → Type 0)
      → All (λ (f : Factor C). (v : World C) → P v → P (f.verify v).0) fs
      → P w
      → P (ask_all fs w).0
  unfolding ask_all
  ask_all-keeps [] w P h p = p
  ask_all-keeps (f ∷ fs) w P (hf, hs) p = ask_all-keeps fs (f.verify w).0 P hs (hf w p)

  pub ask_all-accepts :
      (fs : List (Factor C)) (w : World C) (P : World C → Type 0)
      → All (λ (f : Factor C). (v : World C) → P v → P (f.verify v).0) fs
      → P w
      → all no_error (ask_all fs w).1 ≡ true
      → All (λ (f : Factor C). (v : World C) × P v × ((f.verify v).1 ≡ none)) fs
  unfolding ask_all
  ask_all-accepts [] w P h p a = tt
  ask_all-accepts (f ∷ fs) w P (hf, hs) p a = (
    (w, p, no_error_lem (f.verify w).1 (ground (arith, a))),
    ask_all-accepts fs (f.verify w).0 P hs (hf w p) (ground (arith, a)),
  )

  unfoldable pub in_order : Mfa C
  unfolding verify_all
  in_order = record {
    verify = verify_all;
    keeps = λ p fs w P h start. ask_all-keeps fs w P h start;
    accepts = λ p fs w P h start len a. ask_all-accepts fs w P h start a;
  }
