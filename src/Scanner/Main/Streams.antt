-- ===== src/Scanner/Main/Streams.antt =====
-- The second streams of the server case leave no trace in the files.
use waylandpp.Prelude.{
  ℕ, zero, ◌≤◌, ◌≡◌, refl, ap, Bool, true, false, Option, none, some, List, [], ◌∷◌, ◌++◌, length,
  length-append, arith,
}
use waylandpp.Scanner.Text.{Text, t, endl, ◌<<◌, each}
use waylandpp.Scanner.Model.{Interface}
use waylandpp.Scanner.CommandLine.{Arg}
use waylandpp.Scanner.Print.Classes.{◌<<?◌}
use waylandpp.Scanner.Files.{print_intro, print_hpp, print_hpp_rest, print_cpp, print_cpp_intro}
use waylandpp.Scanner.Print.Tables.{print_interface_body}
use waylandpp.Scanner.Main.{write_at, second_hpp, second_cpp, hpp_contents, cpp_contents}

write_new : (s : Text) → write_at zero s [] ≡ s
unfolding write_at
write_new [] = refl
write_new (c ∷ s) = refl

write_over : (s b : Text) → length b ≤ length s → write_at zero s b ≡ s
unfolding write_at
write_over [] [] h = refl
write_over [] (x ∷ b) h = absurd (omega (arith, h))
write_over (c ∷ s) [] h = refl
write_over (c ∷ s) (x ∷ b) h = ap (λ u. c ∷ u) (write_over s b (omega (arith, h)))

write_after : (a s b : Text) → length b ≤ length s → write_at (length a) s (a ++ b) ≡ a ++ s
unfolding write_at
write_after [] s b h = write_over s b h
write_after (c ∷ a) s b h = ap (λ u. c ∷ u) (write_after a s b h)

write_behind : (a s : Text) → write_at (length a) s a ≡ a ++ s
unfolding write_at
write_behind [] s = write_new s
write_behind (c ∷ a) s = ap (λ u. c ∷ u) (write_behind a s)

-- The second intro of the header file is the first one with another end of a line.
second_intro : second_hpp ≡ print_intro true << endl
unfolding second_hpp print_intro
second_intro = refl

ends_long : (a b : Text) → 1 ≤ length b → 1 ≤ length (a ++ b)
ends_long a b h = omega (arith, length-append a b, h)

rest_long : (options : List Arg) (is : List Interface) → 1 ≤ length (print_hpp_rest true options is)
unfolding print_hpp_rest t
rest_long options is = ends_long _ (t "}" << endl) (omega arith)

hpp_lem :
    (server : Bool) (options : List Arg) (is : List Interface)
    → hpp_contents server options is ≡ print_hpp server options is
unfolding hpp_contents print_hpp
hpp_lem false options is = rw (write_new (print_intro false)) (write_behind (print_intro false) _)
hpp_lem true options is =
    rw (write_new second_hpp, second_intro)
      (write_after (print_intro true) _ endl (rest_long options is))

whole_length : Option Text → ℕ
whole_length none = 0
whole_length (some a) = length a

begins_long :
    (a : Text) (o : Option Text) (cpp : Text)
    → (some a <<? o <<? some endl) ≡ some cpp
    → length a ≤ length cpp
unfolding whole_length
begins_long a none cpp e = ground arith
begins_long a (some b) cpp e =
    omega (arith, ap whole_length e, length-append (a ++ b) endl, length-append a b)

intro_long :
    (hpp_file : Text) → length (second_cpp hpp_file) ≤ length (print_cpp_intro true hpp_file)
unfolding print_cpp_intro second_cpp t
intro_long hpp_file = simp length-append (omega arith)

cpp_long :
    (hpp_file : Text) (is : List Interface) (cpp : Text)
    → print_cpp true hpp_file is ≡ some cpp
    → length (second_cpp hpp_file) ≤ length cpp
unfolding print_cpp
cpp_long hpp_file is cpp e =
    let bodies = each (print_interface_body true) is in
    let longer = begins_long (print_cpp_intro true hpp_file << bodies) _ cpp e in
    omega (arith, longer, intro_long hpp_file, length-append (print_cpp_intro true hpp_file) bodies)

cpp_lem :
    (server : Bool) (hpp_file : Text) (is : List Interface) (cpp : Text)
    → print_cpp server hpp_file is ≡ some cpp
    → cpp_contents server hpp_file cpp ≡ cpp
unfolding cpp_contents
cpp_lem false hpp_file is cpp e = write_new cpp
cpp_lem true hpp_file is cpp e =
    rw (write_new (second_cpp hpp_file)) (write_over cpp _ (cpp_long hpp_file is cpp e))

-- Where no class throws, both files hold in the end what the first streams write: what the second streams
-- of the server case write is written over.
pub contents_lem :
    (server : Bool) (options : List Arg) (hpp_file : Text) (interfaces : List Interface)
    (cpp : Text)
    → print_cpp server hpp_file interfaces ≡ some cpp
    → (hpp_contents server options interfaces ≡ print_hpp server options interfaces)
      × (cpp_contents server hpp_file cpp ≡ cpp)
contents_lem server options hpp_file interfaces cpp e =
    (hpp_lem server options interfaces, cpp_lem server hpp_file interfaces cpp e)
