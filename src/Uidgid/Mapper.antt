-- ===== src/Uidgid/Mapper.antt =====
-- uidgid/mapper_linux.go and uidgid/mapper_nonlinux.go
use baggageclaim.Prelude.{ℕ, ◌-◌, ◌≡◌, ◌≢◌, List, [], ◌∷◌, nat_eq, if◌then◌else◌, arith}

-- syscall.SysProcIDMap
pub record IdMap : Type 0 where
  pub container_id : ℕ
  pub host_id : ℕ
  pub size : ℕ

-- `uidGidMapper`, or `noopMapper` where there are no user namespaces
pub data Mapper : Type 0 where
  uid_gid_mapper : List IdMap → List IdMap → Mapper
  noop_mapper : Mapper

-- The entries below are never negative, but for the size `max_id - 1` where `max_id` is 0; that size
-- is looked at only to see whether it is 1.
abbrev pub privileged_ids : ℕ → List IdMap
privileged_ids max_id =
    record { container_id = max_id; host_id = 0; size = 1 }
    ∷ record { container_id = 1; host_id = 1; size = max_id - 1 }
    ∷ []

abbrev pub unprivileged_ids : ℕ → List IdMap
unprivileged_ids max_id =
    record { container_id = 0; host_id = max_id; size = 1 }
    ∷ record { container_id = 1; host_id = 1; size = max_id - 1 }
    ∷ []

unfoldable pub new_privileged_mapper : ℕ → Mapper
new_privileged_mapper max_id = uid_gid_mapper (privileged_ids max_id) (privileged_ids max_id)

unfoldable pub new_unprivileged_mapper : ℕ → Mapper
new_unprivileged_mapper max_id = uid_gid_mapper (unprivileged_ids max_id) (unprivileged_ids max_id)

unfoldable pub find_mapping : List IdMap → ℕ → ℕ
find_mapping [] from_id = from_id
find_mapping (id ∷ ids) from_id =
    let rest = find_mapping ids from_id in
    if nat_eq id.size 1 then (if nat_eq id.container_id from_id then id.host_id else rest) else rest

-- `Map`
unfoldable pub map_ids : Mapper → ℕ → ℕ → ℕ × ℕ
unfolding find_mapping
map_ids (uid_gid_mapper uids gids) uid gid = (find_mapping uids uid, find_mapping gids gid)
map_ids noop_mapper uid gid = (uid, gid)

-- The unprivileged mapping takes root to the greatest id and leaves every other id alone.
pub find_mapping-unprivileged :
    (max_id id : ℕ)
    → find_mapping (unprivileged_ids max_id) id ≡ (if nat_eq id 0 then max_id else id)
unfolding find_mapping
find_mapping-unprivileged max_id id = ground arith

-- The privileged mapping takes the greatest id to root and leaves every other id alone.
pub find_mapping-privileged :
    (max_id id : ℕ) → find_mapping (privileged_ids max_id) id ≡ (if nat_eq id max_id then 0 else id)
unfolding find_mapping
find_mapping-privileged max_id id = ground arith

-- For ids other than the greatest one, the privileged mapping takes back what the unprivileged one
-- did, to user and group alike.
pub map_ids-inverse :
    (max_id uid gid : ℕ)
    → uid ≢ max_id
    → gid ≢ max_id
    → let (u, g) = map_ids (new_unprivileged_mapper max_id) uid gid in
      map_ids (new_privileged_mapper max_id) u g ≡ (uid, gid)
unfolding map_ids new_unprivileged_mapper new_privileged_mapper
map_ids-inverse max_id uid gid hu hg = ground arith
