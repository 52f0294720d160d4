-- ===== src/Mgmt/ListUsers.antt =====
-- The response that lists the users: its length field counts what follows, no sum wraps, and the
-- whole fits the write buffer.
use tpe2026c1_socks.Users.Table
use tpe2026c1_socks.Buffer.Emit.{Emits, emit_all, emit_byte, emit_none, emit_seq, write_all}
use tpe2026c1_socks.Mgmt.Bytes.{be16, header, emit_header, emit_u16}
use tpe2026c1_socks.Mgmt.Wire.{names_from, resp_list_users, datalen_from, put_u16, resp_header}
use tpe2026c1_socks.Prelude.{
  All, Bytes, List, [], ap, arith, get_elem?, length, length-append, some, suc, ℕ, ◌%◌, ◌*◌, ◌++◌,
  ◌+◌, ◌<◌, ◌^◌, ◌∙◌, ◌∷◌, ◌≡◌, ◌≤◌, ◌>>=◌,
}
use tpe2026c1_socks.Smp.{smp_cmd_list_users, smp_ok}
use tpe2026c1_socks.Users.{User, users_name_at}
use tpe2026c1_socks.Users.Names.{names, names-Fits, users_name_at-names}
use tpe2026c1_socks.Users.Table.{Fits}
use tpe2026c1_socks.Buffer.{buffer_write}

-- The names, each behind its length.
abbrev pub entries : List Bytes → Bytes
entries [] = []
entries (n ∷ ns) = length n ∷ (n ++ entries ns)

abbrev pub list_bytes : List Bytes → Bytes
list_bytes ns =
    header smp_cmd_list_users smp_ok (2 + length (entries ns)) ++ (be16 (length ns) ++ entries ns)

-- The names `ns` stand in the table from index `i` on.
abbrev Listed : List User → ℕ → List Bytes → Type 0
Listed db i ns = (j : ℕ) → users_name_at db (i + j) ≡ get_elem? ns j

Listed-head :
    (db : List User) (i : ℕ) (n : Bytes) (ns : List Bytes)
    → Listed db i (n ∷ ns)
    → users_name_at db i ≡ some n
Listed-head db i n ns h = ap (users_name_at db) (omega arith) ∙ h 0

Listed-tail :
    (db : List User) (i : ℕ) (n : Bytes) (ns : List Bytes)
    → Listed db i (n ∷ ns)
    → Listed db (i + 1) ns
Listed-tail db i n ns h j = ap (users_name_at db) (omega arith) ∙ h (suc j)

length-entries :
    (n : Bytes) (ns : List Bytes) → length (entries (n ∷ ns)) ≡ 1 + length n + length (entries ns)
length-entries n ns = omega (arith, length-append n (entries ns))

entries_bound : (ns : List Bytes) → All Table.Fits ns → length (entries ns) ≤ 256 * length ns
entries_bound [] h = omega arith
entries_bound (n ∷ ns) h = omega (arith, length-entries n ns, entries_bound ns h.1, h.0)

datalen_from-entries :
    (db : List User) (ns : List Bytes) (i d : ℕ)
    → Listed db i ns
    → All Table.Fits ns
    → d + length (entries ns) < 2 ^ 32
    → datalen_from db (length ns) i d ≡ some (d + length (entries ns))
unfolding datalen_from
datalen_from-entries db [] i d h f k = ap some (omega arith)
datalen_from-entries db (n ∷ ns) i d h f k =
    let e : (d + 1 + length n % 2 ^ 32) % 2 ^ 32 ≡ d + 1 + length n =
      omega (arith, f.0, length-entries n ns) in
    rw (Listed-head db i n ns h, e)
      (datalen_from-entries db ns (i + 1) (d + 1 + length n) (Listed-tail db i n ns h) f.1
          (omega (arith, length-entries n ns))
        ∙ ap some (omega (arith, length-entries n ns)))

emit_names :
    (db : List User) (ns : List Bytes) (i : ℕ)
    → Listed db i ns
    → All Table.Fits ns
    → Emits (names_from db (length ns) i) (entries ns)
unfolding names_from
emit_names db [] i h f = emit_none
emit_names db (n ∷ ns) i h f =
    let e : length n % 256 ≡ length n = omega (arith, f.0) in
    let rest : Emits
        (λ b.
          buffer_write b (length n)
          >>= (λ b1. write_all n b1 >>= names_from db (length ns) (i + 1)))
        (entries (n ∷ ns)) =
      emit_seq (emit_byte _)
        (emit_seq (emit_all n) (emit_names db ns (i + 1) (Listed-tail db i n ns h) f.1)) in
    record { emits = λ b v k. rw (Listed-head db i n ns h, e) (rest.emits b v k) }

emit-Listed :
    (db : List User) (ns : List Bytes)
    → Listed db 0 ns
    → All Table.Fits ns
    → Emits
        (λ b.
          resp_header smp_cmd_list_users smp_ok (2 + length (entries ns)) b
          >>= (λ b1. put_u16 (length ns) b1 >>= names_from db (length ns) 0))
        (list_bytes ns)
emit-Listed db ns h f =
    emit_seq (emit_header _ _ _) (emit_seq (emit_u16 _) (emit_names db ns 0 h f))

-- On a valid table the response to LIST_USERS is a header whose length counts what follows it, the
-- number of users, and each name behind its length, in the order of the table; it has at most 16391
-- bytes.
pub emit_list_users :
    (db : List User)
    → Table.IsValid db
    → Emits (resp_list_users db) (list_bytes (names db)) × (length (list_bytes (names db)) ≤ 16391)
unfolding resp_list_users
emit_list_users db v =
    let (few, count, listed) = users_name_at-names db v in
    let fits : All Table.Fits (names db) = names-Fits db v.fits in
    let bound : length (entries (names db)) ≤ 256 * length (names db) =
      entries_bound (names db) fits in
    let start : Listed db 0 (names db) = λ j. ap (users_name_at db) (omega arith) ∙ listed j in
    let len : datalen_from db (length (names db)) 0 2 ≡ some (2 + length (entries (names db))) =
      datalen_from-entries db (names db) 0 2 start fits (omega arith) in
    let short : (2 + length (entries (names db))) % 2 ^ 16 ≡ 2 + length (entries (names db)) =
      omega arith in
    let small : length (names db) % 2 ^ 16 ≡ length (names db) = omega arith in
    (
      record {
        emits = λ b v' k.
            rw (count, len, short, small) ((emit-Listed db (names db) start fits).emits b v' k);
      },
      omega arith,
    )
