-- ===== src/Socks5/Negotiate.antt =====
-- The greeting and the authentication of src/socks5.c. A handler returns the next state.
use tpe2026c1_socks.Users.{users_check}
use tpe2026c1_socks.Buffer.{Buffer, buffer_can_read, buffer_reset, buffer_write}
use tpe2026c1_socks.Config.{ProxyConfig}
use tpe2026c1_socks.Net.{Interest, RecvResult, SendResult, only_read, only_write}
use tpe2026c1_socks.Parsers.Auth.{auth_parser_consume}
use tpe2026c1_socks.Parsers.Hello.{
  HelloParser, hello_parser_consume, method_no_auth, method_none, method_userpass,
}
use tpe2026c1_socks.Prelude.{
  Bytes, Option, false, if◌then◌else◌, not, some, take, ℕ, ◌++◌, ◌==◌, ◌>>=◌,
}
use tpe2026c1_socks.Prelude.Text.{c_string}
use tpe2026c1_socks.Socks5.State.{
  Input, Output, World, auth_read_state, auth_write_state, done_state, error_state,
  hello_read_state, hello_write_state, input_ended, no_input, no_output, output_failed,
  request_read_state, send_out, set_interest, take_in, input, output,
}

unfoldable pub choose_method : ProxyConfig → HelloParser → ℕ
choose_method cfg p =
    if cfg.auth_required
    then (if p.has_userpass then method_userpass else method_none)
    else if p.has_noauth
    then method_no_auth
    else if p.has_userpass
    then method_userpass
    else method_none

-- `selector_set_interest` on the client's descriptor, then the next state, or the error state where
-- the call fails.
unfoldable pub client_interest_then : World → Interest → ℕ → ℕ × World
unfolding set_interest
client_interest_then w i next =
    let (i', ok) = set_interest w.client_interest i in
    if ok then (next, record w { client_interest = i' }) else (error_state, w)

-- The end of `hello_read`: the answer to a whole greeting.
unfoldable pub hello_reply : World → Option (ℕ × World)
hello_reply w = do
  let method = choose_method w.g.config w.s.hello
  b1 ← buffer_write (buffer_reset w.s.write_buffer) 0x05
  b2 ← buffer_write b1 method
  some (
      client_interest_then
        (record w {
          s = record (w.s) { method = method; write_buffer = b2 };
          required = w.g.config.auth_required;
        })
        only_write hello_write_state)

unfoldable pub hello_input : World → Input → Option (ℕ × World)
hello_input w no_input = some (hello_read_state, w)
hello_input w input_ended = some (error_state, w)
hello_input w (input rb) = do
  (done, p, rb', error) ← hello_parser_consume w.s.hello rb false
  let w' = record w { s = record (w.s) { hello = p; read_buffer = rb' } }
  if not done
      then some (hello_read_state, w')
      else if error
      then some (error_state, w')
      else hello_reply w'

unfoldable pub hello_read : RecvResult → World → Option (ℕ × World)
hello_read r w = do i ← take_in w.s.read_buffer r; hello_input w i

-- Behind a whole reply to the greeting.
unfoldable pub hello_sent : World → ℕ × World
hello_sent w =
    if w.s.method == method_none
    then (done_state, w)
    else client_interest_then w only_read
        (if w.s.method == method_userpass then auth_read_state else request_read_state)

-- What one `send` of the reply leaves.
unfoldable pub wrote : World → Buffer → Bytes → World
wrote w wb bs = record w { s = record (w.s) { write_buffer = wb }; to_client = w.to_client ++ bs }

unfoldable pub hello_output : World → Output → ℕ × World
unfolding wrote
hello_output w no_output = (hello_write_state, w)
hello_output w output_failed = (error_state, w)
hello_output w (output wb bs) =
    let w' = wrote w wb bs in if buffer_can_read wb then (hello_write_state, w') else hello_sent w'

unfoldable pub hello_write : (ℕ → ℕ → SendResult) → World → Option (ℕ × World)
hello_write send w = do o ← send_out w.s.write_buffer send; some (hello_output w o)

-- The end of `auth_read`: the answer to whole credentials.
unfoldable pub auth_reply : World → Option (ℕ × World)
auth_reply w = do
  let name = c_string w.s.auth.username
  let ok = users_check w.g.users (some name) (some (c_string w.s.auth.password))
  b1 ← buffer_write (buffer_reset w.s.write_buffer) 0x01
  b2 ← buffer_write b1 (if ok then 0x00 else 0x01)
  some (
      client_interest_then
        (record w {
          s = record (w.s) { auth_ok = ok; username = take 255 name; write_buffer = b2 };
          checked = w.g.users;
        })
        only_write auth_write_state)

unfoldable pub auth_input : World → Input → Option (ℕ × World)
auth_input w no_input = some (auth_read_state, w)
auth_input w input_ended = some (error_state, w)
auth_input w (input rb) = do
  (done, p, rb', error) ← auth_parser_consume w.s.auth rb false
  let w' = record w { s = record (w.s) { auth = p; read_buffer = rb' } }
  if not done
      then some (auth_read_state, w')
      else if error
      then some (error_state, w')
      else auth_reply w'

unfoldable pub auth_read : RecvResult → World → Option (ℕ × World)
auth_read r w = do i ← take_in w.s.read_buffer r; auth_input w i

unfoldable pub auth_sent : World → ℕ × World
auth_sent w =
    if not w.s.auth_ok then (done_state, w) else client_interest_then w only_read request_read_state

unfoldable pub auth_output : World → Output → ℕ × World
auth_output w no_output = (auth_write_state, w)
auth_output w output_failed = (error_state, w)
auth_output w (output wb bs) =
    let w' = wrote w wb bs in if buffer_can_read wb then (auth_write_state, w') else auth_sent w'

unfoldable pub auth_write : (ℕ → ℕ → SendResult) → World → Option (ℕ × World)
auth_write send w = do o ← send_out w.s.write_buffer send; some (auth_output w o)
