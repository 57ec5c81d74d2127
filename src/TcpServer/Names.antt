-- ===== src/TcpServer/Names.antt =====
-- The names of connections are never cut off, and no two are the same.
use epoll.Base.{
  ℕ, ◌≡◌, ◌≤◌, ◌<◌, sym, ◌∙◌, ◌∷◌, ◌++◌, length, take, arith, length-append, take_of_length, Text,
  decimal, decimal_injective, length-digits, append-cancel,
}
use epoll.TcpServer.{connection_name}

-- 2 ^ 31, which `_nextConnId` never reaches
abbrev pub id_limit : ℕ
id_limit = 2147483648

label : Text → ℕ → Text
label ip_port id = b'-' ∷ (ip_port ++ (b'#' ∷ decimal id))

label_fits :
    (ip_port : Text) (id : ℕ) → length ip_port ≤ 51 → take 63 (label ip_port id) ≡ label ip_port id
unfolding label
label_fits ip_port id h =
    take_of_length 63 (b'-' ∷ (ip_port ++ (b'#' ∷ decimal id)))
      (omega (arith, h, length-append ip_port (b'#' ∷ decimal id), length-digits 10 id))

tail_eq : (c d : ℕ) (s t : Text) → ◌≡◌ {A = Text} (c ∷ s) (d ∷ t) → s ≡ t
tail_eq c d s t h = cc

pub connection_name_injective :
    (name ip_port : Text) (a b : ℕ)
    → length ip_port ≤ 51
    → a < id_limit
    → b < id_limit
    → connection_name name ip_port a ≡ connection_name name ip_port b
    → a ≡ b
unfolding connection_name label
connection_name_injective name ip_port a b h ha hb e =
    let cut = append-cancel name _ _ e in
    let whole : label ip_port a ≡ label ip_port b =
      sym (label_fits ip_port a h) ∙ cut ∙ label_fits ip_port b h in
    let marks = append-cancel ip_port _ _ (tail_eq b'-' b'-' _ _ whole) in
    decimal_injective a b (omega (arith, ha)) (omega (arith, hb)) (tail_eq b'#' b'#' _ _ marks)
