-- ===== src/Console/Printing.antt =====
-- What `printf` of student-distrib/lib.c writes, for formats whose arguments fit.
use linux_simulation.Base.{
  ℕ, ◌≡◌, refl, sym, ap, ◌∙◌, false, Option, none, some, List, [], ◌∷◌, ◌++◌, ◌>>=◌, ◌==◌, u8,
  length, arith,
}
use linux_simulation.Console.{Console}
use linux_simulation.Console.Output.{putc, puts}
use linux_simulation.Console.Printf.{
  Arg, put_string, put_hex, put_hex_aligned, put_unsigned, put_signed, with_word, with_pointer,
  convert, plain, printf_loop, printf,
}
use linux_simulation.Console.Strings.{put_string_lem, text_of}
use linux_simulation.Console.Items.{
  Item, literal, percent, hex, hex_aligned, unsigned, signed, character, text, bytes, argument,
  format_of, args_of, Shows, ShowsAll,
}
use linux_simulation.Console.Conversions.{
  put_unsigned-Writes, put_hex-Writes, put_signed-Writes, put_hex_aligned-Writes,
}

then_puts :
    (o : Option Console) (xs ys : List ℕ)
    → ((c : Console) → puts c (xs ++ ys) ≡ (puts c xs >>= λ c'. puts c' ys))
    → (o >>= λ c. puts c (xs ++ ys)) ≡ ((o >>= λ c. puts c xs) >>= λ c'. puts c' ys)
then_puts none xs ys h = refl
then_puts (some c) xs ys h = h c

pub puts-append :
    (c : Console) (xs ys : List ℕ) → puts c (xs ++ ys) ≡ (puts c xs >>= λ c'. puts c' ys)
unfolding puts
puts-append c [] ys = refl
puts-append c (x ∷ xs) ys = then_puts (putc c x) xs ys (λ c'. puts-append c' xs ys)

-- One character, and then the rest.
then_one :
    {A : Type 0} (o : Option Console) (g : Console → Option A)
    → (o >>= g) ≡ ((o >>= λ c. some c) >>= g)
then_one none g = refl
then_one (some c) g = refl

-- A conversion, and then the rest with the arguments behind it.
then_rest :
    {A : Type 0} (o : Option Console) (args : List Arg) (g : Console → List Arg → Option A)
    → (◌>>=◌ {B = Console × List Arg} o (λ c. some (c, args)) >>= λ out. g out.0 out.1)
      ≡ (o >>= λ c. g c args)
then_rest none args g = refl
then_rest (some c) args g = refl

-- The loop over an item, in front of anything.
abbrev LoopShows : Item → List ℕ → Type 0
LoopShows i ds =
    (c : Console) (f : List ℕ) (args : List Arg)
    → printf_loop plain c (bytes i ++ f) (argument i ++ args)
      ≡ (puts c ds >>= λ c'. printf_loop plain c' f args)

item-LoopShows : (i : Item) → (ds : List ℕ) × Shows i ds × LoopShows i ds
unfolding printf_loop convert puts with_word with_pointer
item-LoopShows (literal ch h) = (
  ch ∷ [],
  refl,
  λ c f args.
      let other : (ch == 0x25) ≡ false = ground arith in
      rw other (then_one (putc c ch) (λ c'. printf_loop plain c' f args)),
)
item-LoopShows percent = (
  0x25 ∷ [],
  refl,
  λ c f args.
      then_rest (putc c 0x25) args (λ c' a. printf_loop plain c' f a)
      ∙ then_one (putc c 0x25) (λ c'. printf_loop plain c' f args),
)
item-LoopShows (hex value h) =
    let (ds, numeral, writes) = put_hex-Writes value h in
    (
      ds,
      numeral,
      λ c f args.
          then_rest (put_hex c value) args (λ c' a. printf_loop plain c' f a)
          ∙ ap (λ o. o >>= λ c'. printf_loop plain c' f args) (writes c),
    )
item-LoopShows (hex_aligned value h) =
    let (ds, shows, writes) = put_hex_aligned-Writes value h in
    (
      ds,
      shows,
      λ c f args.
          then_rest (put_hex_aligned c value) args (λ c' a. printf_loop plain c' f a)
          ∙ ap (λ o. o >>= λ c'. printf_loop plain c' f args) (writes c),
    )
item-LoopShows (unsigned value h) =
    let (ds, numeral, writes) = put_unsigned-Writes value h in
    (
      ds,
      numeral,
      λ c f args.
          then_rest (put_unsigned c value) args (λ c' a. printf_loop plain c' f a)
          ∙ ap (λ o. o >>= λ c'. printf_loop plain c' f args) (writes c),
    )
item-LoopShows (signed value h) =
    let (ds, shows, writes) = put_signed-Writes value h in
    (
      ds,
      shows,
      λ c f args.
          then_rest (put_signed c value) args (λ c' a. printf_loop plain c' f a)
          ∙ ap (λ o. o >>= λ c'. printf_loop plain c' f args) (writes c),
    )
item-LoopShows (character value h) = (
  u8 value ∷ [],
  refl,
  λ c f args.
      then_rest (putc c (u8 value)) args (λ c' a. printf_loop plain c' f a)
      ∙ then_one (putc c (u8 value)) (λ c'. printf_loop plain c' f args),
)
item-LoopShows (text s n h t) =
    let (ds, is_text) = text_of s n t in
    (
      ds,
      is_text,
      λ c f args.
          then_rest (put_string c s) args (λ c' a. printf_loop plain c' f a)
          ∙ ap (λ o. o >>= λ c'. printf_loop plain c' f args) (put_string_lem c s n ds h t is_text),
    )

under :
    {A : Type 0} (o : Option Console) (g h : Console → Option A)
    → ((c : Console) → g c ≡ h c)
    → (o >>= g) ≡ (o >>= h)
under none g h e = refl
under (some c) g h e = e c

loop-ShowsAll :
    (items : List Item)
    → (ds : List ℕ) × ShowsAll items ds
      × ((c : Console) → printf_loop plain c (format_of items) (args_of items) ≡ puts c ds)
unfolding printf_loop puts
loop-ShowsAll [] = ([], refl, λ c. refl)
loop-ShowsAll (i ∷ items) =
    let (front, shows, loops) = item-LoopShows i in
    let (rest, shows_all, runs) = loop-ShowsAll items in
    (
      front ++ rest,
      (front, rest, refl, shows, shows_all),
      λ c.
          loops c (format_of items) (args_of items)
          ∙ under (puts c front) (λ c'. printf_loop plain c' (format_of items) (args_of items))
              (λ c'. puts c' rest) runs
          ∙ sym (puts-append c front rest),
    )

-- `printf` of a format that is a row of literal characters and conversions, each with an argument of
-- its kind: there is a text that all of it stands for, with each number in its radix, negative ones
-- with a sign, and zeros in front up to eight digits for `%#x`, so that on any console `printf`
-- writes that text as `puts` does and returns the length of the format.
pub printf-ShowsAll :
    (items : List Item)
    → (ds : List ℕ) × ShowsAll items ds
      × ((c : Console)
          → printf c (format_of items) (args_of items)
            ≡ (puts c ds >>= λ c'. some (c', length (format_of items))))
unfolding printf
printf-ShowsAll items =
    let (ds, shows, runs) = loop-ShowsAll items in
    (ds, shows, λ c. ap (λ o. o >>= λ c'. some (c', length (format_of items))) (runs c))
