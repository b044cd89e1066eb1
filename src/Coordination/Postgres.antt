-- ===== src/Coordination/Postgres.antt =====
-- infra/coordination.py, `PostgresCoordinationBackend` and the factory. The database's advisory locks
-- are as PostgreSQL documents them: a lock has one session at a time, which may take it again.
use agent_task_platform.Prelude.{
  ℕ, zero, suc, ◌+◌, ◌-◌, ◌*◌, ◌^◌, String, Bool, true, false, not, ◌&&◌, ◌||◌, none, some, List,
  [], ◌∷◌, ◌==◌, string_eq, if◌then◌else◌, ltb, nat_beq, contains,
}
use agent_task_platform.Prelude.Int.{ℤ, pos, negsuc}
use agent_task_platform.Domain.Entities.{Dict}
use agent_task_platform.World.{dict_get, dict_set, dict_pop}
use agent_task_platform.Coordination.{Backend}

-- The bytes of a digest, read from the most significant one.
abbrev of_bytes : ℕ → List ℕ → ℕ
of_bytes n [] = n
of_bytes n (b ∷ bytes) = of_bytes (n * 256 + b) bytes

abbrev first_bytes : ℕ → List ℕ → List ℕ
first_bytes zero bytes = []
first_bytes (suc n) [] = []
first_bytes (suc n) (b ∷ bytes) = b ∷ first_bytes n bytes

-- `signed=True`: the two's complement of 64 bits.
abbrev signed : ℕ → ℤ
signed n = if ltb n (2 ^ 63) then pos n else negsuc (2 ^ 64 - 1 - n)

-- `_hash_key`, from the digest of the key.
unfoldable pub hash_key : (String → List ℕ) → String → ℤ
hash_key sha256 key = signed (of_bytes 0 (first_bytes 8 (sha256 key)))

abbrev pub same_lock : ℤ → ℤ → Bool
same_lock (pos m) (pos n) = nat_beq m n
same_lock (negsuc m) (negsuc n) = nat_beq m n
same_lock a b = false

-- The advisory locks of the server, each with the session that holds it; a process's pool of idle
-- connections and `_held_connections`.
pub record Cluster : Type 0 where
  pub locks : List (ℤ × String)
  pub idle : List String
  pub held : Dict String

-- `pg_try_advisory_lock`
unfoldable pub try_advisory_lock : ℤ → String → List (ℤ × String) → Bool
try_advisory_lock lock session [] = true
try_advisory_lock lock session ((l, holder) ∷ locks) =
    (not (same_lock l lock) || holder == session) && try_advisory_lock lock session locks

-- `pg_advisory_unlock`
unfoldable pub advisory_unlock : ℤ → String → List (ℤ × String) → List (ℤ × String)
advisory_unlock lock session [] = []
advisory_unlock lock session ((l, holder) ∷ locks) =
    if same_lock l lock && holder == session
    then locks
    else (l, holder) ∷ advisory_unlock lock session locks

abbrev pub is_held : String → Cluster → Bool
is_held key c = elim (dict_get key c.held) [ none ↦ false | some conn ↦ true ]

-- `finally`: the connection goes back to the pool, unless the key is held by then.
abbrev pub given_back : String → String → Cluster → Cluster
given_back key conn c = if is_held key c then c else record c { idle = conn ∷ c.idle }

abbrev pub granted : ℤ → String → String → Cluster → Cluster
granted lock key conn c = record c {
  locks = (lock, conn) ∷ c.locks;
  held = dict_set key conn c.held;
}

-- The polling loop of `_blocking_acquire`, with what happens while it sleeps. The deadline allows so
-- many turns after the first. The statements themselves do not fail.
unfoldable pub poll : (Cluster → Cluster) → ℤ → String → String → ℕ → Cluster → Bool × Cluster
poll sleep lock key conn zero c = elim (try_advisory_lock lock conn c.locks) [
  | true ↦ (true, granted lock key conn c)
  | false ↦ (false, given_back key conn c)
]
poll sleep lock key conn (suc turns) c = elim (try_advisory_lock lock conn c.locks) [
  | true ↦ (true, granted lock key conn c)
  | false ↦ poll sleep lock key conn turns (sleep c)
]

-- `_blocking_acquire`; a pool without an idle connection raises, which `acquire` answers with false.
-- A call with no time polls once.
unfoldable pub blocking_acquire :
    (Cluster → Cluster) → (String → List ℕ) → String → ℕ → Cluster → Bool × Cluster
blocking_acquire sleep sha256 key turns c = if is_held key c then (true, c) else elim c.idle [
  | [] ↦ (false, c)
  | conn ∷ idle ↦ poll sleep (hash_key sha256 key) key conn turns (record c { idle = idle })
]

-- `_blocking_release`
unfoldable pub blocking_release : (String → List ℕ) → String → Cluster → Cluster
blocking_release sha256 key c = elim (dict_get key c.held) [
  | none ↦ c
  | some conn ↦ record c {
    locks = advisory_unlock (hash_key sha256 key) conn c.locks;
    idle = conn ∷ c.idle;
    held = dict_pop key c.held;
  }
]

abbrev pub postgres_backend : (Cluster → Cluster) → (String → List ℕ) → Backend Cluster
postgres_backend sleep sha256 = record {
  acquire = λ key turns c. blocking_acquire sleep sha256 key turns c;
  try_acquire = λ key c. blocking_acquire sleep sha256 key 0 c;
  release = blocking_release sha256;
}

pub data BackendKind : Type 0 where
  local postgres : BackendKind

-- `create_coordination_backend`, from the two settings that it decides by and whether the pool of the
-- database library could be made.
unfoldable pub create_coordination_backend : String → String → Bool → BackendKind
create_coordination_backend backend database pooled =
    if backend == "postgres" && (contains ("postgres" ∷ "postgresql" ∷ []) database && pooled)
    then postgres
    else local
