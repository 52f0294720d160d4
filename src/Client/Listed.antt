-- ===== src/Client/Listed.antt =====
-- The list of users that the client reads from the response of src/mgmt.c.
use tpe2026c1_socks.Users.Table
use tpe2026c1_socks.Users.Names.{users_name_at-names, users_count-names, names}
use tpe2026c1_socks.Client.Transport.{
  Call, got, names_printed, users_printed, Response, do_request, get_u16,
}
use tpe2026c1_socks.Client.Receive.{Enough, Enough-le}
use tpe2026c1_socks.Client.Read.{do_request_lem}
use tpe2026c1_socks.Mgmt.Bytes.{be16}
use tpe2026c1_socks.Mgmt.ListUsers.{emit_list_users, entries, list_bytes}
use tpe2026c1_socks.Prelude.{
  All, Bytes, List, [], arith, drop-append, false, length, length-append, ltb, refl, some,
  take-append, ◌%◌, ◌*◌, ◌++◌, ◌+◌, ◌/◌, ◌^◌, ◌∷◌, ◌≡◌, ◌≤◌,
}
use tpe2026c1_socks.Prelude.Text.{IsText, c_string-IsText}
use tpe2026c1_socks.Smp.{smp_cmd_list_users, smp_ok}
use tpe2026c1_socks.Users.{User, users_count}

names_printed-entries :
    (ns : List Bytes) → All IsText ns → names_printed (length ns) (entries ns) ≡ ns
unfolding names_printed
names_printed-entries [] h = refl
names_printed-entries (n ∷ ns) h =
    let fits : ltb (length (n ++ entries ns)) (length n) ≡ false =
      ground (arith, length-append n (entries ns)) in
    rw
      (
        fits,
        take-append n (entries ns) (length n) refl,
        drop-append n (entries ns) (length n) refl,
        c_string-IsText n h.0,
        names_printed-entries ns h.1,
      )
      refl

-- A client that receives the server's answer to LIST_USERS for a valid table, whose names are C
-- strings, prints the number of users and every name, in the order of the table, however the
-- stream is cut.
pub users_read :
    (db : List User) (rest : Bytes) (cs : List Call)
    → Table.IsValid db
    → All IsText (names db)
    → Enough (length (list_bytes (names db))) cs
    → (r : Response) × (cs' : List Call) × (do_request (list_bytes (names db) ++ rest) cs
        ≡ got r rest cs')
      × (users_printed r ≡ some (users_count db, names db))
unfolding users_printed get_u16
users_read db rest cs v t h =
    let few : length (names db) ≤ 64 =
      omega (arith, (users_name_at-names db v).0, users_count-names db) in
    let short = (emit_list_users db v).1 in
    let data_part : Bytes = be16 (length (names db)) ++ entries (names db) in
    let whole : 2 + length (entries (names db)) ≡ length data_part = omega arith in
    let calls : Enough (5 + length data_part) cs =
      Enough-le cs (5 + length data_part) (length (list_bytes (names db))) (omega arith) h in
    let (cs', q) =
      do_request_lem smp_cmd_list_users smp_ok data_part rest cs (omega (arith, short)) calls in
    let n : (length (names db) / 2 ^ 8 % 256) * 2 ^ 8 + length (names db) % 256
        ≡ length (names db) =
      omega arith in
    let counted_data : ltb (length data_part) 2 ≡ false = ground arith in
    (
      record {
        cmd = smp_cmd_list_users;
        status = smp_ok;
        datalen = length data_part;
        data_bytes = data_part;
      },
      cs',
      rw whole q,
      rw (counted_data, n, users_count-names db, names_printed-entries (names db) t) refl,
    )
