-- ===== src/Sessions/Files/Restart.antt =====
-- What a restart finds of the saved sessions: one session for each file name.
use ottie.Prelude.{
  ◌≡◌, ◌≢◌, inl, inr, refl, sym, ap, ◌∙◌, String, Bool, true, false, not, ◌||◌, Option, none, some,
  [], ◌∷◌, arith, str_eq, eq_iff, eq_refl, Bool-cases, if◌then◌else◌,
}
use ottie.Prelude.Dict.{Dict, lookup, lookup-insert, IsMap}
use ottie.Providers.Protocol.{Message}
use ottie.Sessions.{Session, Sessions}
use ottie.Sessions.Files.{
  stored_session, sanitize_filename, SessionJson, SaveError, file_name, write_session, save, loaded,
  load_sessions,
}

module _ {A F : Type 0} (json : SessionJson A F) (is_local : String → Bool) where
  open json use {decode, encode}

  -- Every file that decodes is named after the key of its session, as Save names it.
  abbrev pub IsNamed : Dict F → Type 0
  IsNamed dir =
      (name : String) (f : F) (s : Session (Message A))
      → lookup name dir ≡ some f
      → decode f ≡ some s
      → name ≡ file_name s.key

  -- The session of a key in a file, if it is the session of that key.
  abbrev pub of_key : String → Option (Session (Message A)) → Option (Session (Message A))
  of_key key none = none
  of_key key (some s) = if str_eq s.key key then some s else none

  abbrev pub read_file : Option F → Option (Session (Message A))
  read_file none = none
  read_file (some f) = decode f

  abbrev pub first_some :
      Option (Session (Message A)) → Option (Session (Message A)) → Option (Session (Message A))
  first_some none o = o
  first_some (some s) o = some s

  written-IsNamed :
      (fault : Option String) (key : String) (o : Option (Session (Message A))) (dir : Dict F)
      → ((s : Session (Message A)) → o ≡ some s → s.key ≡ key)
      → IsNamed dir
      → IsNamed (write_session json is_local fault key o dir).1
  unfolding write_session
  written-IsNamed fault key none dir keyed h = h
  written-IsNamed (some e) key (some x) dir keyed h = h
  written-IsNamed none key (some x) dir keyed h = λ name f s found decoded.
      by_test name f s decoded (str_eq name (file_name key)) refl
        (sym (lookup-insert (file_name key) name (encode x) dir) ∙ found)
    where
      by_test :
          (name : String) (f : F) (s : Session (Message A))
          → decode f ≡ some s
          → (b : Bool) → str_eq name (file_name key) ≡ b
          → (if b then some (encode x) else lookup name dir) ≡ some f
          → name ≡ file_name s.key
      by_test name f s decoded true e g =
          let same : encode x ≡ f = cc g in
          let mine = sym (json.decode-encode x) ∙ ap decode same ∙ decoded in
          let one : stored_session x ≡ s = cc mine in
          let named : name ≡ file_name key = ground (arith, eq_iff name (file_name key)) in
          named ∙ ap file_name (sym (keyed x refl) ∙ ap (λ y. y.key) one)
      by_test name f s decoded false e g = h name f s g decoded

  -- Save keeps every file named after the key of its session.
  pub save-IsNamed :
      (has_storage : Bool) (fault : Option String) (key : String) (sessions : Sessions (Message A))
      (dir : Dict F)
      → ((s : Session (Message A)) → lookup key sessions ≡ some s → s.key ≡ key)
      → IsNamed dir
      → IsNamed (save json is_local has_storage fault key sessions dir).1
  unfolding save
  save-IsNamed has_storage fault key sessions dir keyed h =
      by_guards (not has_storage)
        (str_eq (sanitize_filename key) "." || not (is_local (sanitize_filename key)))
    where
      by_guards :
          (b c : Bool)
          → IsNamed
              (if b
                then (none, dir)
                else if c
                then (some SaveError.invalid_name, dir)
                else write_session json is_local fault key (lookup key sessions) dir).1
      by_guards true c = h
      by_guards false true = h
      by_guards false false = written-IsNamed fault key (lookup key sessions) dir keyed h

  rest-IsNamed :
      (file : String × F) (files : Dict F)
      → IsMap (file ∷ files)
      → IsNamed (file ∷ files)
      → IsNamed files
  unfolding IsMap lookup
  rest-IsNamed file files u h name f s found decoded =
      h name f s (in_rest (str_eq name file.0) refl) decoded
    where
      in_rest :
          (b : Bool)
          → str_eq name file.0 ≡ b
          → (if b then some file.1 else lookup name files) ≡ some f
      in_rest true e =
          let same : name ≡ file.0 = ground (arith, eq_iff name file.0) in
          absurd (ground (arith, ap (λ n. lookup n files) same, u.0, found))
      in_rest false e = found

  -- Of a directory that is a map and whose files are named after their keys, a restart finds under a key the session
  -- in the file of that key, if it is the session of that key, and else what was there before.
  pub lookup-load_sessions :
      (key : String) (dir : Dict F) (sessions : Sessions (Message A))
      → IsMap dir
      → IsNamed dir
      → lookup key (load_sessions json is_local dir sessions)
        ≡ first_some (of_key key (read_file (lookup (file_name key) dir))) (lookup key sessions)
  unfolding load_sessions lookup IsMap
  lookup-load_sessions key [] sessions u h = refl
  lookup-load_sessions key (file ∷ files) sessions u h =
      lookup-load_sessions key files (loaded json is_local (decode file.1) sessions) u.1
        (rest-IsNamed file files u h)
      ∙ by_file (decode file.1) refl (str_eq (file_name key) file.0) refl
    where
      gone : str_eq (file_name key) file.0 ≡ true → lookup (file_name key) files ≡ none
      gone e =
          let same : file_name key ≡ file.0 = ground (arith, eq_iff (file_name key) file.0) in
          ap (λ n. lookup n files) same ∙ u.0

      no_match :
          (s : Session (Message A))
          → decode file.1 ≡ some s
          → str_eq (file_name key) file.0 ≡ false
          → key ≢ s.key
      no_match s d e same =
          let named = h file.0 file.1 s (ground (arith, eq_refl file.0)) d in
          let mine = ap file_name same ∙ sym named in
          ground (arith, eq_iff (file_name key) file.0, mine, e)

      by_file :
          (o : Option (Session (Message A)))
          → decode file.1 ≡ o
          → (b : Bool) → str_eq (file_name key) file.0 ≡ b
          → first_some
              (of_key key (read_file (lookup (file_name key) files)))
              (lookup key (loaded json is_local o sessions))
            ≡ first_some
                (of_key key (read_file (if b then some file.1 else lookup (file_name key) files)))
                (lookup key sessions)
      by_file none d true e = rw (gone e, d) refl
      by_file none d false e = refl
      by_file (some s) d true e =
          rw (gone e, d)
            (rw (lookup-insert s.key key s sessions) (elim (Bool-cases (str_eq s.key key)) [
              | inl y ↦ rw y (ground (arith, eq_iff s.key key, eq_iff key s.key))
              | inr y ↦ rw y (ground (arith, eq_iff s.key key, eq_iff key s.key))
            ]))
      by_file (some s) d false e =
          let other : str_eq key s.key ≡ false = ground (arith, eq_iff key s.key, no_match s d e) in
          rw (lookup-insert s.key key s sessions) (rw other refl)
