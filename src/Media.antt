-- ===== src/Media.antt =====
-- pkg/media/store.go: the files of a processing scope, by references. A set of references is a list. Whether
-- a file exists, the fresh reference and the time are arguments; files to be removed are returned, since
-- a failed removal is only logged.
pub mod Consistent
pub mod Release
pub mod Expiry
use ottie.Prelude.{
  ℕ, ◌+◌, String, Bool, true, false, Option, none, some, List, [], ◌∷◌, str_eq, any, keep_if, not,
  ltb, ◌==◌, if◌then◌else◌, length,
}
use ottie.Prelude.Dict.{Dict, lookup, insert, delete}

pub record MediaMeta : Type 0 where
  pub filename : String
  pub content_type : String
  pub source : String

pub record MediaEntry : Type 0 where
  pub path : String
  pub meta : MediaMeta
  pub stored_at : ℕ

-- `FileMediaStore`: its three maps.
pub record MediaStore : Type 0 where
  pub refs : Dict MediaEntry
  pub scope_to_refs : Dict (List String)
  pub ref_to_scope : Dict String

unfoldable pub new_file_media_store : MediaStore
new_file_media_store = record { refs = []; scope_to_refs = []; ref_to_scope = [] }

-- A nil set is empty.
abbrev pub or_empty : Option (List String) → List String
or_empty none = []
or_empty (some refs) = refs

-- `Store`, from the file's existence and the new reference on; `none` is the error of os.Stat.
unfoldable pub store :
    Bool → String → ℕ → String → MediaMeta → String → MediaStore → Option String × MediaStore
store false ref now path meta scope s = (none, s)
store true ref now path meta scope s = (
  some ref,
  record {
    refs = insert ref (record { path = path; meta = meta; stored_at = now }) s.refs;
    scope_to_refs = insert scope (ref ∷ or_empty (lookup scope s.scope_to_refs)) s.scope_to_refs;
    ref_to_scope = insert ref scope s.ref_to_scope;
  },
)

abbrev pub entry_path : Option MediaEntry → Option String
entry_path none = none
entry_path (some e) = some e.path

-- `none` is the error of an unknown reference.
unfoldable pub resolve : String → MediaStore → Option String
resolve ref s = entry_path (lookup ref s.refs)

abbrev pub path_and_meta : Option MediaEntry → Option (String × MediaMeta)
path_and_meta none = none
path_and_meta (some e) = some (e.path, e.meta)

unfoldable pub resolve_with_meta : String → MediaStore → Option (String × MediaMeta)
resolve_with_meta ref s = path_and_meta (lookup ref s.refs)

abbrev pub add_path : Option MediaEntry → List String → List String
add_path none paths = paths
add_path (some e) paths = e.path ∷ paths

-- The loop of ReleaseAll over the scope's references: the paths to remove, and the two maps.
unfoldable pub release_refs :
    List String → Dict MediaEntry → Dict String → List String × Dict MediaEntry × Dict String
release_refs [] refs ref_to_scope = ([], refs, ref_to_scope)
release_refs (ref ∷ rest) refs ref_to_scope =
    let (paths, refs', ref_to_scope') =
      release_refs rest (delete ref refs) (delete ref ref_to_scope) in
    (add_path (lookup ref refs) paths, refs', ref_to_scope')

unfoldable pub release_scope : String → Option (List String) → MediaStore → List String × MediaStore
unfolding release_refs
release_scope scope none s = ([], s)
release_scope scope (some set) s =
    let (paths, refs, ref_to_scope) = release_refs set s.refs s.ref_to_scope in
    (
      paths,
      record {
        refs = refs;
        scope_to_refs = delete scope s.scope_to_refs;
        ref_to_scope = ref_to_scope;
      },
    )

-- `ReleaseAll`: the files that it removes, and the store.
unfoldable pub release_all : String → MediaStore → List String × MediaStore
unfolding release_scope
release_all scope s = release_scope scope (lookup scope s.scope_to_refs) s

-- delete(scopeRefs, ref), and the scope with it where nothing is left.
unfoldable pub leave_scope :
    String → String → Option (List String) → Dict (List String) → Dict (List String)
leave_scope ref scope none scopes = scopes
leave_scope ref scope (some set) scopes =
    let left = keep_if (λ r. not (str_eq r ref)) set in
    if length left == 0 then delete scope scopes else insert scope left scopes

unfoldable pub leave : String → Option String → Dict (List String) → Dict (List String)
unfolding leave_scope
leave ref none scopes = scopes
leave ref (some scope) scopes = leave_scope ref scope (lookup scope scopes) scopes

-- What CleanExpired does to the maps for one expired reference.
unfoldable pub expire : String → MediaStore → MediaStore
unfolding leave
expire ref s = record {
  refs = delete ref s.refs;
  scope_to_refs = leave ref (lookup ref s.ref_to_scope) s.scope_to_refs;
  ref_to_scope = delete ref s.ref_to_scope;
}

-- entry.storedAt.Before(now.Add(-maxAge))
abbrev pub is_expired : ℕ → ℕ → MediaEntry → Bool
is_expired max_age now e = ltb (e.stored_at + max_age) now

-- The loop over `s.refs`, whose pairs are those at its start: the paths to remove, and the maps.
unfoldable pub expire_each : ℕ → ℕ → Dict MediaEntry → MediaStore → List String × MediaStore
unfolding expire
expire_each max_age now [] s = ([], s)
expire_each max_age now (pair ∷ rest) s =
    let (paths, s') =
      expire_each max_age now rest (if is_expired max_age now pair.1 then expire pair.0 s else s) in
    (if is_expired max_age now pair.1 then pair.1.path ∷ paths else paths, s')

-- `CleanExpired`; a MaxAge that is not positive is 0 here. Its result is the number of the paths.
unfoldable pub clean_expired : ℕ → ℕ → MediaStore → List String × MediaStore
unfolding expire_each
clean_expired max_age now s = if max_age == 0 then ([], s) else expire_each max_age now s.refs s
