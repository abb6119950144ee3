-- ===== src/Tests/Media.antt =====
-- A store with one file in each of two scopes.
use ottie.Prelude.{◌≡◌, refl, String, true, not, ◌&&◌, none, if◌then◌else◌, ◌==◌}
use ottie.Prelude.Dict.{lookup, insert}
use ottie.Media.{
  MediaMeta, MediaStore, new_file_media_store, store, resolve, release_all, clean_expired,
}
use ottie.Media.Consistent.{IsConsistent, is_scope, new-IsConsistent, store-IsConsistent}
use ottie.Media.Release.{release_all-IsConsistent}
use ottie.Media.Expiry.{is_old, clean_expired-IsConsistent}

abbrev meta : MediaMeta
meta = record { filename = "a.png"; content_type = "image/png"; source = "telegram" }

abbrev one_file : MediaStore
one_file = (store true "media://1" 10 "/tmp/a" meta "s1" new_file_media_store).1

abbrev two_files : MediaStore
two_files = (store true "media://2" 50 "/tmp/b" meta "s2" one_file).1

one_file-IsConsistent : IsConsistent one_file
unfolding lookup new_file_media_store
one_file-IsConsistent =
    store-IsConsistent true "media://1" 10 "/tmp/a" meta "s1" new_file_media_store refl
      new-IsConsistent

two_files-IsConsistent : IsConsistent two_files
unfolding lookup insert store new_file_media_store
two_files-IsConsistent =
    store-IsConsistent true "media://2" 50 "/tmp/b" meta "s2" one_file refl one_file-IsConsistent

release_all-IsConsistent_example :
    IsConsistent (release_all "s1" two_files).1
    × ((ref : String)
        → resolve ref (release_all "s1" two_files).1 ≡ (
            if is_scope "s1" (lookup ref two_files.ref_to_scope)
            then none
            else resolve ref two_files))
release_all-IsConsistent_example = release_all-IsConsistent "s1" two_files two_files-IsConsistent

clean_expired-IsConsistent_example :
    IsConsistent (clean_expired 30 60 two_files).1
    × ((ref : String)
        → resolve ref (clean_expired 30 60 two_files).1 ≡ (
            if not (30 == 0) && is_old 30 60 (lookup ref two_files.refs)
            then none
            else resolve ref two_files))
clean_expired-IsConsistent_example =
    clean_expired-IsConsistent 30 60 two_files two_files-IsConsistent
