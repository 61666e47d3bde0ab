-- ===== src/Rwlock.antt =====
-- dvc/rwlock.py. The lock file is a record of two dicts, in the order of insertion. `overlaps` is
-- what the file system says of two paths, and `alive` whether a process exists.
pub mod Kept
pub mod Checks
pub mod Exclusion
pub mod Blocked
pub mod Writes
pub mod Reads
pub mod Roundtrip
mod Examples
use dvc.Base.{
  ℕ, String, ◌≡◌, Bool, true, false, not, ◌&&◌, ◌||◌, Option, none, some, List, [], ◌∷◌, ◌++◌, Eq,
  ◌==◌, string_eq, nat_eq, pair_eq, contains, any, find, select, map, map_option, Result, return,
  raise, then_result, or_raise, if◌then◌else◌,
}

-- {"pid": ..., "cmd": ...}
abbrev pub Info : Type 0
Info = ℕ × String

-- A dict of readers and a dict of writers, each from paths, the keys in their order. A dict that
-- becomes empty is deleted from the lock.
pub record Lock : Type 0 where
  pub read : Option (List (String × List Info))
  pub write : Option (List (String × Info))

-- A lock error holds the processes that block.
pub data LockFailure : Type 0 where
  lock_error : List Info → LockFailure
  assertion_error : LockFailure
  key_error : LockFailure

pub data Mode : Type 0 where
  read write : Mode

-- A dict without its last key is deleted.
unfoldable pub unless_empty : {A : Type 0} → List A → Option (List A)
unless_empty [] = none
unless_empty (x ∷ xs) = some (x ∷ xs)

-- What the schema gives for a dict that is missing, as does `lock.get`.
unfoldable pub or_empty : {A : Type 0} → Option (List A) → List A
or_empty none = []
or_empty (some d) = d

-- The lock that the schema makes of the file's: both dicts are there.
unfoldable pub loaded : Lock → Lock
unfolding or_empty
loaded lock = record { read = some (or_empty lock.read); write = some (or_empty lock.write) }

unfoldable pub remove : Info → List Info → List Info
remove info [] = []
remove info (i ∷ infos) = if i == info then infos else i ∷ remove info infos

-- One turn of `_release_write` on the dict; none if an assertion fails.
unfoldable pub delete_writer : Info → String → List (String × Info) → Option (List (String × Info))
delete_writer info url [] = none
delete_writer info url ((k, i) ∷ d) =
    let rest = delete_writer info url d in
    if url == k then if i == info then some d else none else map_option (λ d'. (k, i) ∷ d') rest

-- One turn of `_release_read`.
unfoldable pub delete_reader :
    Info → String → List (String × List Info) → Option (List (String × List Info))
unfolding remove
delete_reader info url [] = none
delete_reader info url ((k, infos) ∷ d) =
    let rest = delete_reader info url d in
    if url == k
    then if contains infos info
      then elim (remove info infos) [ [] ↦ some d | i ∷ is ↦ some ((k, i ∷ is) ∷ d) ]
      else none
    else map_option (λ d'. (k, infos) ∷ d') rest

-- One turn on the lock. An assertion fails too if the dict is missing.
unfoldable pub delete_write : Info → String → Lock → Result LockFailure Lock
unfolding delete_writer unless_empty
delete_write info url lock = or_raise assertion_error lock.write λ d.
    or_raise assertion_error (delete_writer info url d)
      λ d'. return (record lock { write = unless_empty d' })

unfoldable pub delete_read : Info → String → Lock → Result LockFailure Lock
unfolding delete_reader unless_empty
delete_read info url lock = or_raise assertion_error lock.read λ d.
    or_raise assertion_error (delete_reader info url d)
      λ d'. return (record lock { read = unless_empty d' })

unfoldable pub release_write : Info → List String → Lock → Result LockFailure Lock
unfolding delete_write
release_write info [] lock = return lock
release_write info (url ∷ changes) lock =
    then_result (delete_write info url lock) (release_write info changes)

unfoldable pub release_read : Info → List String → Lock → Result LockFailure Lock
unfolding delete_read
release_read info [] lock = return lock
release_read info (url ∷ changes) lock =
    then_result (delete_read info url lock) (release_read info changes)

-- One turn of `_acquire_read` on the dict, and whether the path was new.
unfoldable pub add_reader :
    Info → String → List (String × List Info) → Bool × List (String × List Info)
add_reader info path [] = (true, (path, info ∷ []) ∷ [])
add_reader info path ((k, readers) ∷ d) =
    let (changed, d') = add_reader info path d in
    if path == k
    then if contains readers info
      then (false, (k, readers) ∷ d)
      else (true, (k, readers ++ info ∷ []) ∷ d)
    else (changed, (k, readers) ∷ d')

unfoldable pub add_readers :
    Info → List String → List (String × List Info) → List String × List (String × List Info)
unfolding add_reader
add_readers info [] d = ([], d)
add_readers info (path ∷ paths) d =
    let (changed, d') = add_reader info path d in
    let (changes, d'') = add_readers info paths d' in
    (if changed then path ∷ changes else changes, d'')

unfoldable pub acquire_read : Info → List String → Lock → List String × Lock
unfolding add_readers or_empty
acquire_read info paths lock =
    let (changes, d) = add_readers info paths (or_empty lock.read) in
    (changes, record lock { read = some d })

-- The same of `_acquire_write`; another holder of the path is replaced.
unfoldable pub add_writer : Info → String → List (String × Info) → Bool × List (String × Info)
add_writer info path [] = (true, (path, info) ∷ [])
add_writer info path ((k, i) ∷ d) =
    let (changed, d') = add_writer info path d in
    if path == k then (not (i == info), (k, info) ∷ d) else (changed, (k, i) ∷ d')

unfoldable pub add_writers :
    Info → List String → List (String × Info) → List String × List (String × Info)
unfolding add_writer
add_writers info [] d = ([], d)
add_writers info (path ∷ paths) d =
    let (changed, d') = add_writer info path d in
    let (changes, d'') = add_writers info paths d' in
    (if changed then path ∷ changes else changes, d'')

unfoldable pub acquire_write : Info → List String → Lock → List String × Lock
unfolding add_writers or_empty
acquire_write info paths lock =
    let (changes, d) = add_writers info paths (or_empty lock.write) in
    (changes, record lock { write = some d })

-- The pairs of a path and a process that reads it.
unfoldable pub spread : List (String × List Info) → List (String × Info)
spread [] = []
spread ((k, infos) ∷ d) = map (λ i. (k, i)) infos ++ spread d

-- `lock[mode].items()`, a writer as a list of one.
unfoldable pub items : Mode → Lock → Option (List (String × Info))
unfolding spread
items Mode.read lock = map_option spread lock.read
items Mode.write lock = lock.write

-- `to_release[blocker].append(path)`
unfoldable pub append_path : String × Info → List (Info × List String) → List (Info × List String)
append_path (path, i) [] = (i, path ∷ []) ∷ []
append_path (path, i) ((j, paths) ∷ g) =
    if i == j then (j, paths ++ path ∷ []) ∷ g else (j, paths) ∷ append_path (path, i) g

unfoldable pub grouped :
    List (String × Info) → List (Info × List String) → List (Info × List String)
unfolding append_path
grouped [] g = g
grouped (x ∷ xs) g = grouped xs (append_path x g)

unfoldable pub release : Mode → Info → List String → Lock → Result LockFailure Lock
unfolding release_read release_write
release Mode.read = release_read
release Mode.write = release_write

unfoldable pub release_all : Mode → List (Info × List String) → Lock → Result LockFailure Lock
unfolding release
release_all mode [] lock = return lock
release_all mode ((i, paths) ∷ g) lock =
    then_result (release mode i paths lock) (release_all mode g)

-- `if blockers`
unfoldable pub blocked_by : List Info → Lock → Result LockFailure Lock
blocked_by [] lock = return lock
blocked_by (b ∷ blockers) lock = raise (lock_error (b ∷ blockers))

module _ (overlaps : String → String → Bool) (alive : ℕ → Bool) where
  -- The entries of other processes, on paths that one of the waiters overlaps.
  unfoldable pub overlapped : Info → List String → List (String × Info) → List (String × Info)
  overlapped info waiters held =
      select (λ x. any (λ w. overlaps w x.0) waiters && not (x.1 == info)) held

  unfoldable pub check_blockers : Mode → Info → List String → Lock → Result LockFailure Lock
  unfolding items grouped release_all overlapped blocked_by
  check_blockers mode info waiters lock = or_raise key_error (items mode lock) λ held.
      let dead = select (λ x. not (alive x.1.0)) (overlapped info waiters held) in
      let blockers = map (λ x. x.1) (select (λ x. alive x.1.0) (overlapped info waiters held)) in
      then_result (release_all mode (grouped dead []) lock) (blocked_by blockers)

  -- The part of `rwlock` before the body, on the lock as it is read from the file: the paths that it
  -- added, and the lock that is saved.
  unfoldable pub enter :
      Info
      → (reads writes : List String) → Lock
      → Result LockFailure ((List String × List String) × Lock)
  unfolding check_blockers acquire_read acquire_write loaded
  enter info reads writes lock =
      then_result (check_blockers Mode.write info (reads ++ writes) (loaded lock)) λ lock1.
        then_result (check_blockers Mode.read info writes lock1) λ lock2.
          let (rchanges, lock3) = acquire_read info reads lock2 in
          let (wchanges, lock4) = acquire_write info writes lock3 in
          return ((rchanges, wchanges), lock4)

-- The part after the body, on the lock as it is read from the file again.
unfoldable pub leave : Info → (rchanges wchanges : List String) → Lock → Result LockFailure Lock
unfolding release_read release_write loaded
leave info rchanges wchanges lock =
    then_result (release_write info wchanges (loaded lock)) (release_read info rchanges)
