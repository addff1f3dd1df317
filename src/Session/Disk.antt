-- ===== src/Session/Disk.antt =====
-- What the files of the conversations hold: writing, reading back, and cleaning up.
use chango_assistant.Base.{
  All, Bool, Option, Text, [], any, ap, arith, codes, delete, false, has_prefix, if◌then◌else◌,
  insert, is_some, keep, length, lookup, lookup-delete, lookup-insert, ltb, none, not, refl,
  reverse, reverse-append, some, subst, sym, text_eq, text_eq-ne, text_eq_iff, text_eq_refl, true,
  ℕ, ◌&&◌, ◌++◌, ◌+◌, ◌∙◌, ◌∷◌, ◌≡◌, ◌≢◌, ◌⊎◌,
}
use chango_assistant.Session.Files.{
  Directory, Entry, Fault, bad_name, cleanup_old_sessions, create, encode, file_name, has_parts,
  is_json, new_session_manager, sanitize_filename, save, write_file,
}
use chango_assistant.Session.Manager.{Session, Sessions}

-- Whatever the fault, no file but the temporary one changes; without a fault the session's file has
-- the new content and every other one stays as it was.
pub write_file_atomic :
    (fault : Option Fault) (gone : Bool) (tmp path name : Text) (content : Entry) (dir : Directory)
    → name ≢ tmp
    → let (dir', err) = write_file fault gone tmp path content dir in
      lookup name dir'
      ≡ (if text_eq path name && not (is_some err) then some content else lookup name dir)
unfolding write_file
write_file_atomic none gone tmp path name content dir ne = ground (
  arith,
  lookup-insert path name content (delete tmp (insert tmp content dir)),
  lookup-delete tmp name (insert tmp content dir),
  lookup-insert tmp name content dir,
  text_eq_iff tmp name,
)
write_file_atomic (some create) gone tmp path name content dir ne = ground arith
write_file_atomic (some f) gone tmp path name content dir ne = ground (
  arith,
  lookup-delete tmp name (insert tmp content dir),
  lookup-insert tmp name content dir,
  text_eq_iff tmp name,
)

has_prefix_self : (p r : Text) → has_prefix (p ++ r) p ≡ true
unfolding has_prefix
has_prefix_self [] [] = refl
has_prefix_self [] (a ∷ r) = refl
has_prefix_self (a ∷ p) r = ground (arith, has_prefix_self p r)

pub file_name-is_json : (key : Text) → is_json (file_name key) ≡ true
unfolding is_json
file_name-is_json key =
    ap (λ t. has_prefix t (codes "nosj.")) (reverse-append (sanitize_filename key) (codes ".json"))
    ∙ has_prefix_self (codes "nosj.") (reverse (sanitize_filename key))

save_lem :
    (rb : Session → Session) (tmp key : Text) (s : Session) (sm : Sessions) (dir : Directory)
    → bad_name (sanitize_filename key) ≡ false
    → lookup key sm ≡ some s
    → (save rb true none true tmp key sm dir).0
      ≡ insert (file_name key) (encode rb s) (delete tmp (insert tmp (encode rb s) dir))
unfolding save
save_lem rb tmp key s sm dir good h = rw (good, h, save)

write_first :
    (t path : Text) (c : Entry) → insert path c (delete t (insert t c [])) ≡ (path, c) ∷ []
unfolding insert delete
write_first t path c = rw (text_eq_refl t)

write_again :
    (u path : Text) (c d : Entry)
    → insert path d (delete u (insert u d ((path, c) ∷ []))) ≡ (path, d) ∷ []
unfolding insert delete
write_again u path c d = ground (arith, text_eq_iff path u, text_eq_refl u, text_eq_refl path)

-- The directory after one save, and after a second under the same name.
saved_once :
    (rb : Session → Session) (t k : Text) (s : Session) (sm : Sessions)
    → bad_name (sanitize_filename k) ≡ false
    → lookup k sm ≡ some s
    → (save rb true none true t k sm []).0 ≡ (file_name k, encode rb s) ∷ []
saved_once rb t k s sm good h =
    save_lem rb t k s sm [] good h ∙ write_first t (file_name k) (encode rb s)

saved_twice :
    (rb : Session → Session) (k l t u : Text) (s r : Session) (sm : Sessions)
    → sanitize_filename k ≡ sanitize_filename l
    → bad_name (sanitize_filename l) ≡ false
    → lookup k sm ≡ some s
    → lookup l sm ≡ some r
    → (save rb true none true u l sm (save rb true none true t k sm []).0).0
      ≡ (file_name l, encode rb r) ∷ []
saved_twice rb k l t u s r sm same good hs hr =
    save_lem rb u l r sm _ good hr
    ∙ (ap (λ d. insert (file_name l) (encode rb r) (delete u (insert u (encode rb r) d)))
          (saved_once rb t k s sm (subst (λ n. bad_name n ≡ false) (sym same) good) hs
            ∙ ap (λ n. (n ++ codes ".json", encode rb s) ∷ []) same)
        ∙ write_again u (file_name l) (encode rb s) (encode rb r))

restart_one :
    (rb : Session → Session) (l : Text) (r : Session)
    → any has_parts r.messages ≡ false
    → rb r ≡ r
    → new_session_manager true ((file_name l, encode rb r) ∷ []) ≡ (r.key, r) ∷ []
unfolding new_session_manager encode
restart_one rb l r parts read = rw (parts, file_name-is_json l, read) refl

-- Two sessions whose keys differ only in colons and underscores share a file: after both are saved in
-- an empty directory a restart finds the second one only, if the name is allowed and that session is
-- stored under its own key, has no message with parts, and is what its JSON reads as, which holds where
-- its texts are UTF-8.
pub save_collision :
    (read_back : Session → Session) (k l t u : Text) (s r : Session) (sm : Sessions)
    → sanitize_filename k ≡ sanitize_filename l
    → k ≢ l
    → bad_name (sanitize_filename l) ≡ false
    → lookup k sm ≡ some s
    → lookup l sm ≡ some r
    → any has_parts r.messages ≡ false
    → read_back r ≡ r
    → r.key ≡ l
    → let dir = (save read_back true none true t k sm []).0 in
      let restarted = new_session_manager true (save read_back true none true u l sm dir).0 in
      (lookup l restarted ≡ some r) × (lookup k restarted ≡ none)
save_collision read_back k l t u s r sm same ne good hs hr parts read key =
    rw
      (
        saved_twice read_back k l t u s r sm same good hs hr,
        restart_one read_back l r parts read,
        key,
      )
      (rw (text_eq_refl l) refl, rw (text_eq-ne l k (λ e. ne (sym e))) refl)

abbrev pub is_fresh : ℕ → Text × Session → Bool
is_fresh cutoff p = not (ltb p.1.updated cutoff)

-- Every session that was last used before the cutoff is dropped and counted, and no other; a file
-- whose name is not that of a dropped session stays.
cleanup_old_sessions_lem :
    (stored : Bool) (gone : Text → Bool) (cutoff : ℕ) (name : Text) (sm : Sessions)
    (dir : Directory)
    → All (λ p. (is_fresh cutoff p ≡ true) ⊎ (name ≢ file_name p.0)) sm
    → let (sm', dir', removed) = cleanup_old_sessions stored gone cutoff sm dir in
      (sm' ≡ keep (is_fresh cutoff) sm)
      × (removed + length sm' ≡ length sm)
      × (lookup name dir' ≡ lookup name dir)
unfolding cleanup_old_sessions
cleanup_old_sessions_lem stored gone cutoff name [] dir h = (refl, omega arith, refl)
cleanup_old_sessions_lem stored gone cutoff name ((key, s) ∷ sm) dir h =
    let old = ltb s.updated cutoff in
    let dir' =
      if old && (stored && gone (file_name key)) then delete (file_name key) dir else dir in
    let (kept, counted, files) = cleanup_old_sessions_lem stored gone cutoff name sm dir' h.1 in
    (
      ground (arith, kept),
      ground (arith, counted),
      ground (
        arith,
        files,
        h.0,
        lookup-delete (file_name key) name dir,
        text_eq_iff (file_name key) name,
      ),
    )
