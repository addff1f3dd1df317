-- ===== src/Session/Restart.antt =====
-- What a restart of pkg/session/manager.go finds of the sessions that were saved.
use chango_assistant.Base.{
  Bool, Bool-cases, Option, Option-cases, Text, [], any, ap, delete, false, if_both, if◌then◌else◌,
  inl, inr, insert, lookup, lookup-delete, lookup-insert, none, refl, some, subst, sym, text_eq,
  text_eq-ne, text_eq_comm, text_eq_iff, text_eq_refl, text_eq→eq, true, ◌&&◌, ◌∙◌, ◌∷◌, ◌≡◌,
}
use chango_assistant.Session.Disk.{file_name-is_json, write_file_atomic}
use chango_assistant.Session.Files.{
  Directory, Entry, Fault, SaveError, bad_name, chmod, close, create, directory, encode, file_name,
  has_parts, holds, is_json, load_entry, load_sessions, malformed, new_session_manager, rename,
  sanitize_filename, save, sync, unreadable, write, write_file,
}
use chango_assistant.Session.Manager.{Session, Sessions}
use chango_assistant.Tools.TaskList.{some_inj}

-- The names in a directory are distinct, and a session's file has the name of its key.
abbrev pub Named : Directory → Type 0
Named [] = Unit
Named ((n, e) ∷ dir) =
    ((r : Session) → is_json n ≡ true → e ≡ holds r → n ≡ file_name r.key)
    × (lookup n dir ≡ none)
    × Named dir

insert-Named :
    (n : Text) (e : Entry) (dir : Directory)
    → ((r : Session) → is_json n ≡ true → e ≡ holds r → n ≡ file_name r.key)
    → Named dir
    → Named (insert n e dir)
unfolding insert
insert-Named n e [] h v = (h, refl, tt)
insert-Named n e ((m, f) ∷ dir) h v = elim (Bool-cases (text_eq m n)) [
  | inl y ↦ rw y (h, subst (λ t. lookup t dir ≡ none) (text_eq→eq m n y) v.1, v.2)
  | inr y ↦
      rw y (v.0, lookup-insert n m e dir ∙ rw (text_eq_comm n m, y) v.1, insert-Named n e dir h v.2)
]

delete-Named : (n : Text) (dir : Directory) → Named dir → Named (delete n dir)
unfolding delete
delete-Named n [] v = tt
delete-Named n ((m, f) ∷ dir) v = elim (Bool-cases (text_eq m n)) [
  | inl y ↦ rw y (delete-Named n dir v.2)
  | inr y ↦ rw y (v.0, lookup-delete n m dir ∙ rw (text_eq_comm n m, y) v.1, delete-Named n dir v.2)
]

encode-name :
    (rb : Session → Session) (s : Session) (n : Text)
    → n ≡ file_name (rb s).key
    → (r : Session) → is_json n ≡ true
    → encode rb s ≡ holds r
    → n ≡ file_name r.key
unfolding encode
encode-name rb s n e r json h = elim (Bool-cases (any has_parts s.messages)) [
  | inl y ↦ absurd (cc)
  | inr y ↦ cc
]

write_file-Named :
    (fault : Option Fault) (gone : Bool) (tmp path : Text) (e : Entry) (dir : Directory)
    → is_json tmp ≡ false
    → ((r : Session) → is_json path ≡ true → e ≡ holds r → path ≡ file_name r.key)
    → Named dir
    → Named (write_file fault gone tmp path e dir).0
unfolding write_file
write_file-Named fault gone tmp path e dir temp named v = by_fault fault
  where
    with_temp : Named (insert tmp e dir)
    with_temp = insert-Named tmp e dir (λ r json. absurd (cc (json, temp))) v

    failed_at : Named (if gone then delete tmp (insert tmp e dir) else insert tmp e dir)
    failed_at = if_both Named gone _ _ (delete-Named tmp _ with_temp) with_temp

    by_fault : (f : Option Fault) → Named (write_file f gone tmp path e dir).0
    by_fault none = insert-Named path e _ named (delete-Named tmp _ with_temp)
    by_fault (some create) = v
    by_fault (some write) = failed_at
    by_fault (some chmod) = failed_at
    by_fault (some sync) = failed_at
    by_fault (some close) = failed_at
    by_fault (some rename) = failed_at

-- What the entry of the file of `k` adds to what is known of `k`.
abbrev pick : Text → Option Entry → Option Session → Option Session
pick k none prev = prev
pick k (some directory) prev = prev
pick k (some unreadable) prev = prev
pick k (some malformed) prev = prev
pick k (some (holds r)) prev = if text_eq r.key k then some r else prev

load_entry-pick :
    (k : Text) (e : Entry) (sm : Sessions)
    → lookup k (load_entry true e sm) ≡ pick k (some e) (lookup k sm)
load_entry-pick k directory sm = refl
load_entry-pick k unreadable sm = refl
load_entry-pick k malformed sm = refl
load_entry-pick k (holds r) sm = lookup-insert r.key k r sm

load_entry-other :
    (k n : Text) (e : Entry) (sm : Sessions)
    → text_eq n (file_name k) ≡ false
    → ((r : Session) → is_json n ≡ true → e ≡ holds r → n ≡ file_name r.key)
    → lookup k (load_entry (is_json n) e sm) ≡ lookup k sm
load_entry-other k n e sm other named = elim (Bool-cases (is_json n)) [
  | inl y ↦ rw y (by_entry e (λ r. named r y))
  | inr y ↦ rw y refl
]
  where
    by_entry :
        (f : Entry)
        → ((r : Session) → f ≡ holds r → n ≡ file_name r.key)
        → lookup k (load_entry true f sm) ≡ lookup k sm
    by_entry directory h = refl
    by_entry unreadable h = refl
    by_entry malformed h = refl
    by_entry (holds r) h =
        rw
          (
            lookup-insert r.key k r sm,
            text_eq-ne r.key k
                (λ same. cc (other, h r refl ∙ ap file_name same, text_eq_refl (file_name k))),
          )
          refl

load_sessions-pick :
    (k : Text) (dir : Directory) (sm : Sessions)
    → Named dir
    → lookup k (load_sessions dir sm) ≡ pick k (lookup (file_name k) dir) (lookup k sm)
unfolding load_sessions
load_sessions-pick k [] sm v = refl
load_sessions-pick k ((n, e) ∷ dir) sm v = elim (Bool-cases (text_eq n (file_name k))) [
  | inl y ↦
      let same = text_eq→eq n (file_name k) y in
      load_sessions-pick k dir _ v.2
      ∙ rw (y, same, subst (λ t. lookup t dir ≡ none) same v.1, file_name-is_json k)
          (load_entry-pick k e sm)
  | inr y ↦ load_sessions-pick k dir _ v.2 ∙ rw (y, load_entry-other k n e sm y v.0) refl
]

-- Whatever the fault, `Save` keeps the directory's names distinct and its session files named by
-- their keys, for a session whose JSON reads as one with that key and a temporary name not ending in .json.
save-Named :
    (rb : Session → Session) (stored : Bool) (fault : Option Fault) (gone : Bool) (tmp k : Text)
    (sm : Sessions) (dir : Directory)
    → is_json tmp ≡ false
    → ((s : Session) → lookup k sm ≡ some s → (rb s).key ≡ k)
    → Named dir
    → Named (save rb stored fault gone tmp k sm dir).0
unfolding save
save-Named rb false fault gone tmp k sm dir temp own v = v
save-Named rb true fault gone tmp k sm dir temp own v = elim (Option-cases (lookup k sm)) [
  | inl y ↦ rw y (
      if_both {A = Directory × Option SaveError} (λ p. Named p.0) (bad_name (sanitize_filename k)) _
        _ v v)
  | inr (s, y) ↦ rw y (
      if_both {A = Directory × Option SaveError} (λ p. Named p.0) (bad_name (sanitize_filename k)) _
        _ v
        (write_file-Named fault gone tmp (file_name k) (encode rb s) dir temp
          (encode-name rb s (file_name k) (ap file_name (sym (own s y)))) v))
]

restart-pick :
    (k : Text) (dir : Directory)
    → Named dir
    → lookup k (new_session_manager true dir) ≡ pick k (lookup (file_name k) dir) none
unfolding new_session_manager
restart-pick k dir v = load_sessions-pick k dir [] v

if_and_true :
    {A : Type 0} (b : Bool) (x y : A) → (if b && true then x else y) ≡ (if b then x else y)
if_and_true true x y = refl
if_and_true false x y = refl

encode-holds :
    (rb : Session → Session) (s : Session)
    → any has_parts s.messages ≡ false
    → rb s ≡ s
    → encode rb s ≡ holds s
unfolding encode
encode-holds rb s h read = rw (h, read) refl

-- The entry of a session's file after a save without a fault.
save-entry :
    (rb : Session → Session) (gone : Bool) (tmp k j : Text) (s : Session) (sm : Sessions)
    (dir : Directory)
    → lookup k sm ≡ some s
    → bad_name (sanitize_filename k) ≡ false
    → is_json tmp ≡ false
    → lookup (file_name j) (save rb true none gone tmp k sm dir).0 ≡ (
        if text_eq (file_name k) (file_name j)
        then some (encode rb s)
        else lookup (file_name j) dir)
unfolding save
save-entry rb gone tmp k j s sm dir hs good temp =
    rw (good, hs)
      (write_file_atomic none gone tmp (file_name k) (file_name j) (encode rb s) dir
          (λ e. cc (ap is_json e, temp, file_name-is_json j))
        ∙ if_and_true (text_eq (file_name k) (file_name j)) _ _)

-- What `Save` has written a restart finds, before its clean-up. The session of any other key is found
-- or not as if nothing had been saved, if its file has another name. The directory is one whose
-- files are named by their keys, the name is allowed, the temporary file's name does not end in
-- .json, the session has no message with parts, and it is what its JSON reads as, which holds where its
-- texts are UTF-8.
pub save-restart :
    (read_back : Session → Session) (gone : Bool) (tmp k j : Text) (s : Session) (sm : Sessions)
    (dir : Directory)
    → Named dir
    → lookup k sm ≡ some s
    → s.key ≡ k
    → bad_name (sanitize_filename k) ≡ false
    → is_json tmp ≡ false
    → any has_parts s.messages ≡ false
    → read_back s ≡ s
    → (file_name k ≡ file_name j → k ≡ j)
    → let dir' = (save read_back true none gone tmp k sm dir).0 in
      lookup j (new_session_manager true dir')
      ≡ (if text_eq k j then some s else lookup j (new_session_manager true dir))
save-restart rb gone tmp k j s sm dir v hs key good temp parts read apart =
    restart-pick j _ (
      save-Named rb true none gone tmp k sm dir temp
        (λ r e. cc (key, ap (λ x. x.key) read, ap (λ x. (rb x).key) (some_inj (sym hs ∙ e)))) v)
    ∙ ap (λ o. pick j o none) (save-entry rb gone tmp k j s sm dir hs good temp)
    ∙ elim (Bool-cases (text_eq k j)) [
      | inl y ↦
          let same = text_eq→eq k j y in
          rw
            (
              y,
              (text_eq_iff (file_name k) (file_name j)).1 (ap file_name same),
              encode-holds rb s parts read,
              (text_eq_iff s.key j).1 (key ∙ same),
            )
            refl
      | inr y ↦
          rw
            (y, text_eq-ne (file_name k) (file_name j) (λ e. cc (y, (text_eq_iff k j).1 (apart e))))
            (sym (restart-pick j dir v))
    ]
