-- ===== src/Launchpad/SendKeys/Items.antt =====
-- process_sendkeys_command of src/launchpad.c, on commands that are written as words and strings.
use kindle_launchpad.Base.{
  ℕ, zero, suc, ◌≤◌, ◌<◌, ◌≡◌, refl, Bool, false, List, [], ◌∷◌, ◌++◌, leb, lt→ltb, ◌==◌, Bytes,
  length, length-append, ok, arith,
}
use kindle_launchpad.Ascii.Send.{Call, send_ascii_string}
use kindle_launchpad.Keys.Names.{KeyTable}
use kindle_launchpad.Launchpad.Action.{max_path}
use kindle_launchpad.Launchpad.SendKeys.{
  quoted, bare_word, send_word, sendkeys_loop, process_sendkeys_command,
}

pub data Item : Type 0 where
  word : Bytes → Item
  string : Bytes → Item

-- A word is followed by a space, and a string stands between quotation marks.
abbrev pub print_items : List Item → Bytes
print_items [] = []
print_items (word w ∷ l) = w ++ (b' ' ∷ print_items l)
print_items (string s ∷ l) = b'"' ∷ (s ++ (b'"' ∷ print_items l))

-- All bytes are greater than a space.
abbrev pub AllVisible : Bytes → Type 0
AllVisible [] = Unit
AllVisible (c ∷ w) = (b' ' < c) × AllVisible w

-- No byte is a quotation mark or a backslash.
abbrev pub IsPlain : Bytes → Type 0
IsPlain [] = Unit
IsPlain (c ∷ s) = ((c == b'"') ≡ false) × ((c == b'\\') ≡ false) × IsPlain s

-- A word starts with a byte that is no quotation mark.
abbrev pub IsWord : Bytes → Type 0
IsWord [] = ⊥
IsWord (c ∷ w) = ((c == b'"') ≡ false) × AllVisible (c ∷ w)

abbrev pub AllReadable : List Item → Type 0
AllReadable [] = Unit
AllReadable (word w ∷ l) = IsWord w × AllReadable l
AllReadable (string s ∷ l) = IsPlain s × AllReadable l

bare_word-append : (w rest : Bytes) → AllVisible w → bare_word (w ++ (b' ' ∷ rest)) ≡ (w, rest)
unfolding bare_word
bare_word-append [] rest h = refl
bare_word-append (c ∷ w) rest (visible, h) = ground (arith, bare_word-append w rest h)

quoted-append :
    (full : Bool) (s rest : Bytes) → IsPlain s → quoted full (s ++ (b'"' ∷ rest)) ≡ ok (s, rest)
unfolding quoted
quoted-append full [] [] h = refl
quoted-append full [] (d ∷ rest) h = refl
quoted-append full (c ∷ []) rest (mark, slash, h) = ground (arith, quoted-append full [] rest h)
quoted-append full (c ∷ d ∷ s) rest (mark, slash, h) =
    ground (arith, quoted-append full (d ∷ s) rest h)

module _ (k3 : Bool) (kdelay : ℕ) (t : KeyTable) where
  -- What is done for an item.
  abbrev pub item_calls : Item → List Call
  item_calls (word w) = send_word k3 kdelay t w
  item_calls (string s) = send_ascii_string k3 kdelay s

  unfoldable pub items_calls : List Item → List Call
  items_calls [] = []
  items_calls (i ∷ l) = item_calls i ++ items_calls l

  -- A word that starts with a visible byte, and what follows it.
  on_word :
      (fuel : ℕ) (full : Bool) (c : ℕ) (w rest : Bytes) (calls : List Call)
      → IsWord (c ∷ w)
      → sendkeys_loop k3 kdelay t fuel full rest ≡ ok calls
      → sendkeys_loop k3 kdelay t (suc fuel) full ((c ∷ w) ++ (b' ' ∷ rest))
        ≡ ok (send_word k3 kdelay t (c ∷ w) ++ calls)
  unfolding sendkeys_loop
  on_word fuel full c w rest calls (mark, visible) runs =
      let dark : leb c b' ' ≡ false = ground arith in
      rw (dark, mark, bare_word-append w rest visible.1, runs) refl

  on_string :
      (fuel : ℕ) (full : Bool) (s rest : Bytes) (calls : List Call)
      → IsPlain s
      → sendkeys_loop k3 kdelay t fuel full rest ≡ ok calls
      → sendkeys_loop k3 kdelay t (suc fuel) full (b'"' ∷ (s ++ (b'"' ∷ rest)))
        ≡ ok (send_ascii_string k3 kdelay s ++ calls)
  unfolding sendkeys_loop
  on_string fuel full s rest calls plain runs = rw (quoted-append full s rest plain, runs) refl

  sendkeys_loop-print_items :
      (fuel : ℕ) (full : Bool) (l : List Item)
      → AllReadable l
      → length (print_items l) ≤ fuel
      → sendkeys_loop k3 kdelay t fuel full (print_items l) ≡ ok (items_calls l)
  unfolding items_calls sendkeys_loop
  sendkeys_loop-print_items fuel full [] h le = refl
  sendkeys_loop-print_items fuel full (word [] ∷ l) (h, others) le = absurd h
  sendkeys_loop-print_items zero full (word (c ∷ w) ∷ l) (h, others) le = absurd (omega arith)
  sendkeys_loop-print_items (suc fuel) full (word (c ∷ w) ∷ l) (h, others) le =
      on_word fuel full c w (print_items l) (items_calls l) h (
        sendkeys_loop-print_items fuel full l others
          (omega (arith, length-append w (b' ' ∷ print_items l))))
  sendkeys_loop-print_items zero full (string s ∷ l) (h, others) le = absurd (omega arith)
  sendkeys_loop-print_items (suc fuel) full (string s ∷ l) (h, others) le =
      on_string fuel full s (print_items l) (items_calls l) h (
        sendkeys_loop-print_items fuel full l others
          (omega (arith, length-append s (b'"' ∷ print_items l))))

  -- A command of fewer than 256 bytes that is written as words, each with a space behind it, and
  -- strings in quotation marks, is read without a fault, and for each of them in order the right is
  -- done: the key of a word that names a key is sent, any other word and every string is typed.
  -- The words have no spaces and do not start with a quotation mark, and the strings have neither
  -- quotation marks nor backslashes.
  pub process_sendkeys_command-print_items :
      (l : List Item)
      → AllReadable l
      → length (print_items l) < max_path
      → process_sendkeys_command k3 kdelay t (print_items l) ≡ ok (items_calls l)
  unfolding process_sendkeys_command
  process_sendkeys_command-print_items l readable lt =
      rw (lt→ltb (length (print_items l)) max_path lt)
        (sendkeys_loop-print_items (length (print_items l)) _ l readable (omega arith))
