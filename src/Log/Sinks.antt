-- ===== src/Log/Sinks.antt =====
-- Where the lines of common/log/Log.hpp go.
use management_sensors.Prelude.{
  ◌≡◌, refl, sym, ap, ◌∙◌, inl, inr, Bool, true, false, not, Text, text_eq, text_eq_refl,
  Bool-cases, List, [], ◌∷◌, ◌++◌, append_assoc, append-nil, some, if◌then◌else◌,
}
use management_sensors.Log.{
  Level, debug, info, warn, error, Entry, World, Files, read_file, write_file, write_stream,
  is_error, line, log, log_all, log_path, set_process_name,
}

-- The lines of the calls that a test picks, one after the other.
abbrev pub lines_where : (Entry → Bool) → List Entry → Text
lines_where test [] = []
lines_where test (e ∷ entries) =
    if test e then line e ++ lines_where test entries else lines_where test entries

-- Whether a line of a level belongs on the standard error.
abbrev pub for_cerr : Level → Bool
for_cerr debug = false
for_cerr info = false
for_cerr warn = false
for_cerr error = true

is_error-for_cerr : (l : Level) → is_error l ≡ for_cerr l
is_error-for_cerr debug = refl
is_error-for_cerr info = refl
is_error-for_cerr warn = refl
is_error-for_cerr error = refl

pub read_file-write_file :
    (path text : Text) (files : Files) → read_file path (write_file path text files) ≡ text
unfolding read_file write_file
read_file-write_file path text [] = rw (text_eq_refl path)
read_file-write_file path text ((p, old) ∷ files) = elim (Bool-cases (text_eq p path)) [
  | inl hit ↦ rw hit (rw (text_eq_refl path))
  | inr miss ↦ rw miss (rw miss (read_file-write_file path text files))
]

log-cerr :
    (e : Entry) (w : World) → (log e w).cerr ≡ w.cerr ++ (if for_cerr e.level then line e else [])
unfolding log
log-cerr e w = elim (Bool-cases (is_error e.level)) [
  | inl yes_error ↦ rw (sym (is_error-for_cerr e.level), yes_error) refl
  | inr no_error ↦ rw (sym (is_error-for_cerr e.level), no_error) (sym (append-nil w.cerr))
]

log-cout :
    (e : Entry) (w : World)
    → (log e w).cout ≡ w.cout ++ (if not (for_cerr e.level) then line e else [])
unfolding log
log-cout e w = elim (Bool-cases (is_error e.level)) [
  | inl yes_error ↦ rw (sym (is_error-for_cerr e.level), yes_error) (sym (append-nil w.cout))
  | inr no_error ↦ rw (sym (is_error-for_cerr e.level), no_error) refl
]

log-files :
    (e : Entry) (w : World)
    → ((log e w).logger ≡ w.logger)
      × ((log e w).files ≡ write_stream w.logger.stream (line e) w.files)
unfolding log
log-files e w = elim (Bool-cases (is_error e.level)) [
  | inl yes_error ↦ rw yes_error (refl, refl)
  | inr no_error ↦ rw no_error (refl, refl)
]

log-file :
    (path : Text) (e : Entry) (w : World)
    → w.logger.stream ≡ some (record { path = path; is_open = true })
    → read_file path (log e w).files ≡ read_file path w.files ++ line e
unfolding write_stream
log-file path e w h =
    ap (read_file path) ((log-files e w).1)
    ∙ rw h (read_file-write_file path (read_file path w.files ++ line e) w.files)

lines_where-cons :
    (test : Entry → Bool) (e : Entry) (entries : List Entry) (before : Text)
    → (before ++ (if test e then line e else [])) ++ lines_where test entries
      ≡ before ++ lines_where test (e ∷ entries)
lines_where-cons test e entries before = elim (Bool-cases (test e)) [
  | inl picked ↦ rw picked (append_assoc before (line e) (lines_where test entries))
  | inr passed ↦ rw passed (rw (append-nil before) refl)
]

log_all-consoles :
    (entries : List Entry) (w : World)
    → ((log_all entries w).cerr ≡ w.cerr ++ lines_where (λ e. for_cerr e.level) entries)
      × ((log_all entries w).cout ≡ w.cout ++ lines_where (λ e. not (for_cerr e.level)) entries)
unfolding log_all
log_all-consoles [] w = (sym (append-nil w.cerr), sym (append-nil w.cout))
log_all-consoles (e ∷ entries) w =
    let (on_cerr, on_cout) = log_all-consoles entries (log e w) in
    let others : Entry → Bool = λ x. not (for_cerr x.level) in
    (
      on_cerr
          ∙ (ap (λ t. t ++ lines_where (λ x. for_cerr x.level) entries) (log-cerr e w)
              ∙ lines_where-cons (λ x. for_cerr x.level) e entries w.cerr),
      on_cout
          ∙ (ap (λ t. t ++ lines_where others entries) (log-cout e w)
              ∙ lines_where-cons others e entries w.cout),
    )

log_all-file :
    (path : Text) (entries : List Entry) (w : World)
    → w.logger.stream ≡ some (record { path = path; is_open = true })
    → read_file path (log_all entries w).files
      ≡ read_file path w.files ++ lines_where (λ e. true) entries
unfolding log_all
log_all-file path [] w h = sym (append-nil (read_file path w.files))
log_all-file path (e ∷ entries) w h =
    let same_stream = ap (λ l. l.stream) (log-files e w).0 ∙ h in
    log_all-file path entries (log e w) same_stream
    ∙ (ap (λ t. t ++ lines_where (λ x. true) entries) (log-file path e w h)
        ∙ append_assoc (read_file path w.files) (line e) (lines_where (λ x. true) entries))

-- If the log file can be opened, then after `set_process_name` and any calls of `log`, the file has the
-- lines of all of them in their order and nothing else, the standard error has got those of level
-- ERROR, and the standard output the others.
pub log_all-sinks :
    (can_open : Text → Bool) (name : Text) (entries : List Entry) (w : World)
    → can_open (log_path name) ≡ true
    → (read_file (log_path name) (log_all entries (set_process_name can_open name w)).files
        ≡ lines_where (λ e. true) entries)
      × ((log_all entries (set_process_name can_open name w)).cerr
          ≡ w.cerr ++ lines_where (λ e. for_cerr e.level) entries)
      × ((log_all entries (set_process_name can_open name w)).cout
          ≡ w.cout ++ lines_where (λ e. not (for_cerr e.level)) entries)
unfolding set_process_name
log_all-sinks can_open name entries w h =
    let started = set_process_name can_open name w in
    let (on_cerr, on_cout) = log_all-consoles entries started in
    let in_file =
      log_all-file (log_path name) entries started
        (ap (λ b. some (record { path = log_path name; is_open = b })) h) in
    let empty : read_file (log_path name) started.files ≡ [] =
      rw h (read_file-write_file (log_path name) [] w.files) in
    (in_file ∙ ap (λ t. t ++ lines_where (λ e. true) entries) empty, on_cerr, on_cout)
