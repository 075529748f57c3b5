-- ===== src/Canonical/Print.antt =====
-- `JSON.stringify` on the values that src/canonical-json.ts gives it.
use x.Prelude.{
  ℕ, zero, suc, String, true, false, List, [], ◌∷◌, ◌++◌, if◌then◌else◌, nat_beq, ltb, codes, ◌+◌,
}
use Prim.Native.Nat.{◌/◌, ◌%◌}
use x.Types.{Json, null, bool, num, str, arr, obj, Items, nil, cons, Members, end, member}

abbrev hex_digit : ℕ → ℕ
hex_digit n = if ltb n 10 then n + 48 else n + 87

-- A character inside a quoted text.
unfoldable pub escape : ℕ → List ℕ
escape c =
    if nat_beq c 34
    then 92 ∷ 34 ∷ []
    else if nat_beq c 92
    then 92 ∷ 92 ∷ []
    else if nat_beq c 8
    then 92 ∷ b'b' ∷ []
    else if nat_beq c 9
    then 92 ∷ b't' ∷ []
    else if nat_beq c 10
    then 92 ∷ b'n' ∷ []
    else if nat_beq c 12
    then 92 ∷ b'f' ∷ []
    else if nat_beq c 13
    then 92 ∷ b'r' ∷ []
    else if ltb c 32
    then 92 ∷ b'u' ∷ b'0' ∷ b'0' ∷ hex_digit (c / 16) ∷ hex_digit (c % 16) ∷ []
    else c ∷ []

unfoldable pub escape_all : List ℕ → List ℕ
escape_all [] = []
escape_all (c ∷ cs) = escape c ++ escape_all cs

unfoldable pub quoted : String → List ℕ
quoted s = 34 ∷ (escape_all (codes s) ++ (34 ∷ []))

-- The digits of a number; the fuel is the number itself.
decimal : ℕ → ℕ → List ℕ
decimal zero n = (n + 48) ∷ []
decimal (suc fuel) n =
    let front = decimal fuel (n / 10) in
    if ltb n 10 then (n + 48) ∷ [] else front ++ ((n % 10 + 48) ∷ [])

unfoldable mutual
  unfolding decimal

  pub print : Json → List ℕ
  print null = codes "null"
  print (bool true) = codes "true"
  print (bool false) = codes "false"
  print (num n) = decimal n n
  print (str s) = quoted s
  print (arr items) = b'[' ∷ print_items items
  print (obj members) = b'{' ∷ print_members members

  pub print_items : Items → List ℕ
  print_items nil = b']' ∷ []
  print_items (cons j nil) = print j ++ (b']' ∷ [])
  print_items (cons j (cons k items)) = print j ++ (b',' ∷ print_items (cons k items))

  pub print_members : Members → List ℕ
  print_members end = b'}' ∷ []
  print_members (member key j end) = quoted key ++ (b':' ∷ (print j ++ (b'}' ∷ [])))
  print_members (member key j (member key' k members)) =
      quoted key ++ (b':' ∷ (print j ++ (b',' ∷ print_members (member key' k members))))
