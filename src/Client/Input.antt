-- ===== src/Client/Input.antt =====
-- `read_line` of client/main.cpp: one key, and the line typed so far.
pub mod Typing
use irc_chat.Base.{
  ℕ, zero, suc, ◌≤◌, ◌≡◌, ◌≢◌, refl, sym, ap, ◌∙◌, Bool, true, false, ◌&&◌, List, [], ◌∷◌, ◌++◌,
  Str, arith, leb, ◌==◌, ==_iff, if◌then◌else◌,
}

pub data ReadLineResult : Type 0 where
  reading ready eof : ReadLineResult

-- `isprint` in the "C" locale. The code calls it on any key, for which the C library promises
-- nothing above the range of `unsigned char`; here such a key does not print.
abbrev pub is_print : ℕ → Bool
is_print ch = leb 32 ch && leb ch 126

-- `buf.pop_back()`.
abbrev pub pop_back : Str → Str
pop_back [] = []
pop_back (c ∷ []) = []
pop_back (c ∷ d ∷ s) = c ∷ pop_back (d ∷ s)

abbrev is_empty_text : Str → Bool
is_empty_text [] = true
is_empty_text (c ∷ s) = false

-- The loop around `read_line`: on with the next key while the line is read.
abbrev pub go_on : (Str → Str × ReadLineResult) → Str × ReadLineResult → Str × ReadLineResult
go_on next (buf, reading) = next buf
go_on next (buf, ready) = (buf, ready)
go_on next (buf, eof) = (buf, eof)

-- A key changes the line at most, and then `\n` ends it. `key_backspace` is `KEY_BACKSPACE` of
-- ncurses.h; no key, which `wgetch` reports by a negative number, is any key that does nothing.
module _ (key_backspace : ℕ) where
  unfoldable pub read_line : ℕ → Str → Str × ReadLineResult
  read_line ch buf =
      if ch == key_backspace && (if is_empty_text buf then false else true)
      then (pop_back buf, reading)
      else if is_print ch
      then (buf ++ ch ∷ [], reading)
      else if ch == 4
      then (buf, eof)
      else (buf, if ch == b'\n' then ready else reading)

  -- The keys up to the first that ends the line or the input.
  unfoldable pub read_keys : List ℕ → Str → Str × ReadLineResult
  read_keys [] buf = (buf, reading)
  read_keys (ch ∷ keys) buf = go_on (read_keys keys) (read_line ch buf)
