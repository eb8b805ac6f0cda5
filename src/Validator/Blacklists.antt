-- ===== src/Validator/Blacklists.antt =====
-- What a blacklist file of policyd_py/validation/validator.py blocks.
use policyd_py.Base.{
  ◌≡◌, refl, ap, ◌∙◌, Bool, true, false, not, ◌&&◌, ◌||◌, Option, none, some, List, [], ◌∷◌, arith,
  any, is_empty, Text, lower, strip, starts_with, codes, text_eq, mem_text, if◌then◌else◌,
}
use policyd_py.Validator.{
  EmailValidator, keep_line, load_lines, load_read, load_file_to_set, not_listed, reload_blacklists,
  check_sender_blacklist, check_recipient_blacklist, check_domain_blacklist,
}

-- A line names a value: it is the value once white space and case are set aside, and it is neither
-- blank nor a comment.
abbrev pub names_value : Text → Text → Bool
names_value value line =
    let entry = lower (strip line) in
    not (is_empty entry) && (not (starts_with entry (codes "#")) && text_eq value entry)

mem-keep_line :
    (value entry : Text) (rest : List Text)
    → mem_text value (keep_line entry rest) ≡ (
        not (is_empty entry) && (not (starts_with entry (codes "#")) && text_eq value entry)
        || mem_text value rest)
unfolding keep_line
mem-keep_line value [] rest = refl
mem-keep_line value (c ∷ line) rest = ground arith

mem-load_lines :
    (value : Text) (lines : List Text)
    → mem_text value (load_lines lines) ≡ any (names_value value) lines
unfolding load_lines
mem-load_lines value [] = refl
mem-load_lines value (line ∷ lines) =
    mem-keep_line value (lower (strip line)) (load_lines lines)
    ∙ ap (λ b. names_value value line || b) (mem-load_lines value lines)

-- Whether the file at a path names the value; a path that is not set or cannot be read names none.
abbrev pub file_names : (Text → Option (List Text)) → Text → Text → Bool
file_names read [] value = false
file_names read (c ∷ path) value = elim (read (c ∷ path)) [
  | none ↦ false
  | some lines ↦ any (names_value value) lines
]

mem-load_file :
    (read : Text → Option (List Text)) (path value : Text)
    → mem_text value (load_file_to_set read path) ≡ file_names read path value
unfolding load_file_to_set
mem-load_file read [] value = refl
mem-load_file read (c ∷ path) value = go (read (c ∷ path))
  where
    go :
        (found : Option (List Text))
        → mem_text value (load_read found)
          ≡ elim found [ none ↦ false | some lines ↦ any (names_value value) lines ]
    go none = refl
    go (some lines) = mem-load_lines value lines

flag :
    (b : Bool) (m : Text) → (if b then (let p : Bool × Text = (true, m) in p) else not_listed).0 ≡ b
flag true m = refl
flag false m = refl

-- After a reload with the blacklist enabled, a sender, a recipient and a domain are blocked exactly
-- if a line of the respective file names them, whatever their case.
pub blocked_iff_named :
    (read : Text → Option (List Text)) (senders recipients domains : Text) (v : EmailValidator)
    (s : Text)
    → v.config.enable_blacklist ≡ true
    → let v' = reload_blacklists read senders recipients domains v in
      ((check_sender_blacklist v' s).0 ≡ file_names read senders (lower s))
      × ((check_recipient_blacklist v' s).0 ≡ file_names read recipients (lower s))
      × ((check_domain_blacklist v' s).0 ≡ file_names read domains (lower s))
unfolding reload_blacklists check_sender_blacklist check_recipient_blacklist check_domain_blacklist
blocked_iff_named read senders recipients domains v s enabled = (
  rw enabled (flag _ _ ∙ mem-load_file read senders (lower s)),
  rw enabled (flag _ _ ∙ mem-load_file read recipients (lower s)),
  rw enabled (flag _ _ ∙ mem-load_file read domains (lower s)),
)
