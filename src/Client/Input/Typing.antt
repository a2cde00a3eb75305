-- ===== src/Client/Input/Typing.antt =====
-- Lemmas on the keys that `read_line` of client/main.cpp takes for one line.
use mathlib.Core.List.{append_assoc, append-nil}
use irc_chat.Base.{
  ℕ, zero, suc, ◌<◌, ◌≡◌, refl, sym, ap, ◌∙◌, true, List, [], ◌∷◌, ◌++◌, Str, arith, length,
}
use irc_chat.Client.Input.{reading, ready, is_print, pop_back, go_on, read_line, read_keys}

-- Printable bytes.
abbrev pub ArePrintable : Str → Type 0
ArePrintable [] = Unit {0}
ArePrintable (c ∷ s) = (is_print c ≡ true) × ArePrintable s

-- The key pressed so often.
abbrev pub presses : ℕ → ℕ → List ℕ
presses zero key = []
presses (suc n) key = key ∷ presses n key

presses-append :
    (n key : ℕ) (keys : List ℕ) → presses n key ++ key ∷ keys ≡ key ∷ presses n key ++ keys
presses-append zero key keys = refl
presses-append (suc n) key keys = ap (◌∷◌ key) (presses-append n key keys)

pop_back-append : (s : Str) (c : ℕ) → pop_back (s ++ c ∷ []) ≡ s
pop_back-append [] c = refl
pop_back-append (d ∷ []) c = refl
pop_back-append (d ∷ e ∷ s) c = ap (◌∷◌ d) (pop_back-append (e ∷ s) c)

module _ (key_backspace : ℕ) (special : 255 < key_backspace) where
  read_line_print :
      (c : ℕ) (buf : Str)
      → is_print c ≡ true
      → read_line key_backspace c buf ≡ (buf ++ c ∷ [], reading)
  unfolding read_line
  read_line_print c buf h = ground arith

  read_line_backspace :
      (c : ℕ) (buf : Str) → read_line key_backspace key_backspace (buf ++ c ∷ []) ≡ (buf, reading)
  unfolding read_line
  read_line_backspace c [] = ground arith
  read_line_backspace c (d ∷ buf) = ground (arith, pop_back-append (d ∷ buf) c)

  read_line_enter : (buf : Str) → read_line key_backspace b'\n' buf ≡ (buf, ready)
  unfolding read_line
  read_line_enter buf = ground arith

  read_keys_print :
      (s : Str) (keys : List ℕ) (buf : Str)
      → ArePrintable s
      → read_keys key_backspace (s ++ keys) buf ≡ read_keys key_backspace keys (buf ++ s)
  unfolding read_keys
  read_keys_print [] keys buf h = ap (read_keys key_backspace keys) (sym (append-nil buf))
  read_keys_print (c ∷ s) keys buf h =
      ap (go_on (read_keys key_backspace (s ++ keys))) (read_line_print c buf h.0)
      ∙ (read_keys_print s keys (buf ++ c ∷ []) h.1
          ∙ ap (read_keys key_backspace keys) (append_assoc buf (c ∷ []) s))

  read_keys_backspace :
      (c : ℕ) (keys : List ℕ) (buf : Str)
      → read_keys key_backspace (key_backspace ∷ keys) (buf ++ c ∷ [])
        ≡ read_keys key_backspace keys buf
  unfolding read_keys
  read_keys_backspace c keys buf =
      ap (go_on (read_keys key_backspace keys)) (read_line_backspace c buf)

  enter : (buf : Str) (keys : List ℕ) → read_keys key_backspace (b'\n' ∷ keys) buf ≡ (buf, ready)
  unfolding read_keys
  enter buf keys = ap (go_on (read_keys key_backspace keys)) (read_line_enter buf)

  read_keys_erase :
      (t : Str) (keys : List ℕ) (buf : Str)
      → read_keys key_backspace (presses (length t) key_backspace ++ keys) (buf ++ t)
        ≡ read_keys key_backspace keys buf
  read_keys_erase [] keys buf = ap (read_keys key_backspace keys) (append-nil buf)
  read_keys_erase (c ∷ t) keys buf =
      ap (λ k. read_keys key_backspace k (buf ++ c ∷ t))
        (sym (presses-append (length t) key_backspace keys))
      ∙ ap (read_keys key_backspace (presses (length t) key_backspace ++ key_backspace ∷ keys))
          (sym (append_assoc buf (c ∷ []) t))
      ∙ read_keys_erase t (key_backspace ∷ keys) (buf ++ c ∷ [])
      ∙ read_keys_backspace c keys buf

  -- Printable keys `s`, printable keys `t`, backspace once for each of `t`, printable keys `u` and
  -- the enter key give the line `s` followed by `u`, where the code of the backspace key is above
  -- 255.
  pub read_keys-typed :
      (s t u : Str) (keys : List ℕ)
      → ArePrintable s
      → ArePrintable t
      → ArePrintable u
      → read_keys key_backspace
          (s ++ (t ++ (presses (length t) key_backspace ++ (u ++ b'\n' ∷ keys))))
          []
        ≡ (s ++ u, ready)
  read_keys-typed s t u keys hs ht hu =
      read_keys_print s _ [] hs
      ∙ read_keys_print t _ s ht
      ∙ read_keys_erase t _ s
      ∙ read_keys_print u _ s hu
      ∙ enter (s ++ u) keys
