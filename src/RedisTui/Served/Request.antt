-- ===== src/RedisTui/Served/Request.antt =====
-- main.cpp: what the server replies to the data browser of clients/tui/redis_tui.cpp.
use minimum_redis.Base.{
  ℕ, ◌+◌, ◌&&◌, Bool, true, false, Bool-cases, Option, none, some, List, [], ◌∷◌, Bytes, text,
  codes, equal, length, if◌then◌else◌, inl, inr, ◌⊎◌, ◌≡◌, refl, sym, ap, ◌∙◌, append-nil, arith,
}
use minimum_redis.Dict.{find}
use minimum_redis.Resp.Value.{to_list}
use minimum_redis.Resp.Encode.{request, bulks, send_command}
use minimum_redis.Commands.Reply.{Clock}
use minimum_redis.Commands.State.{CommandProcessor, Shared, Outside, Outcome, replies}
use minimum_redis.Commands.Table.{queued_commands}
use minimum_redis.Commands.Keys.{handle_keys}
use minimum_redis.Commands.Cluster.{redirect}
use minimum_redis.Commands.Processor.{
  process_args, run_now, upper, push_command, queued_reply, unless_moved,
}
use minimum_redis.Base.Number.{to_string}
use minimum_redis.Server.{Status, stop, process_buffer, check_space, handle_input}
use minimum_redis.Server.Pipeline.{requests, serve, process_buffer-requests}

abbrev pub keys_star : List Bytes
keys_star = codes "KEYS" ∷ codes "*" ∷ []

pub sends_keys : send_command (text "KEYS *") ≡ some (request keys_star)
unfolding send_command request text
sends_keys = refl

abbrev pub refused : Bytes
refused = codes "-ERR KEYS requires no arguments\r\n"

keys_star-refused :
    (o : Outside) (now : Clock) (p : CommandProcessor) (s : Shared)
    → (run_now o now (codes "KEYS") (to_list (bulks keys_star)) p s).reply ≡ refused
unfolding run_now find equal text queued_commands handle_keys
keys_star-refused o now p s = refl

abbrev pub in_queue : Bytes
in_queue = codes "+QUEUED\r\n"

-- The reply to `KEYS *`: a transaction has it on its queue.
abbrev pub reply_to : CommandProcessor → Bytes
reply_to p = if p.in_transaction then in_queue else refused

-- Both are a line.
abbrev pub IsReply : Bytes → Type 0
IsReply s = (s ≡ refused) ⊎ (s ≡ in_queue)

pub reply_to-IsReply : (p : CommandProcessor) → IsReply (reply_to p)
reply_to-IsReply p = elim (Bool-cases p.in_transaction) [
  | inl e ↦ rw e (inr refl)
  | inr e ↦ rw e (inl refl)
]

keys_star-here :
    (o : Outside) → redirect o.hash o.cluster (codes "KEYS") (to_list (bulks keys_star)) ≡ none
unfolding redirect equal text
keys_star-here o = elim (Bool-cases o.cluster.enabled) [ inl e ↦ rw e refl | inr e ↦ rw e refl ]

if-reply :
    (b : Bool) (x y : Outcome)
    → x.reply ≡ in_queue
    → y.reply ≡ refused
    → (if b && true then x else y).reply ≡ (if b then in_queue else refused)
if-reply true x y h i = h
if-reply false x y h i = i

queued_reply-text : queued_reply ≡ in_queue
unfolding queued_reply text
queued_reply-text = refl

moved-reply :
    (m : Option Bytes) (p : CommandProcessor) (s : Shared) (run : Outcome)
    → m ≡ none
    → (unless_moved m p s run).reply ≡ run.reply
moved-reply m p s run here = rw here refl

pub process_args-keys_star :
    (o : Outside) (now : Clock) (p : CommandProcessor) (s : Shared)
    → (process_args o now (to_list (bulks keys_star)) p s).reply ≡ reply_to p
unfolding process_args upper equal text
process_args-keys_star o now p s =
    let args = to_list (bulks keys_star) in
    let now_run = run_now o now (codes "KEYS") args p s in
    if-reply p.in_transaction (replies (push_command (codes "KEYS") args p) s queued_reply)
      (unless_moved (redirect o.hash o.cluster (codes "KEYS") args) p s now_run) queued_reply-text
      (moved-reply (redirect o.hash o.cluster (codes "KEYS") args) p s now_run (keys_star-here o)
        ∙ keys_star-refused o now p s)

keys_bytes : requests (keys_star ∷ []) ≡ request keys_star
unfolding requests
keys_bytes = append-nil (request keys_star)

request-size : length (request keys_star) ≡ 21
unfolding request to_string
request-size = refl

-- The server's thread has an empty buffer, and the request comes.
process_buffer-keys :
    (o : Outside) (clocks : ℕ → Clock) (p : CommandProcessor) (s : Shared)
    → process_buffer o (length (request keys_star) + 1) clocks (request keys_star) p s
      ≡ serve o clocks (keys_star ∷ []) p s
process_buffer-keys o clocks p s =
    let size = request-size in
    let size' : length (requests (keys_star ∷ [])) ≡ 21 = ap length keys_bytes ∙ size in
    ap (λ b. process_buffer o (length (request keys_star) + 1) clocks b p s) (sym keys_bytes)
    ∙ process_buffer-requests o (length (request keys_star) + 1) clocks (keys_star ∷ []) p s
        (omega arith) (omega arith)

serve-written :
    (o : Outside) (clocks : ℕ → Clock) (p : CommandProcessor) (s : Shared)
    → (check_space (serve o clocks (keys_star ∷ []) p s)).written
      ≡ (process_args o (clocks 0) (to_list (bulks keys_star)) p s).reply
unfolding serve
serve-written o clocks p s =
    append-nil (process_args o (clocks 0) (to_list (bulks keys_star)) p s).reply

pub handle_input-keys :
    (o : Outside) (clocks : ℕ → Clock) (p : CommandProcessor) (s : Shared)
    → (handle_input o clocks (request keys_star) (stop Status.waiting [] p s [])).written
      ≡ (process_args o (clocks 0) (to_list (bulks keys_star)) p s).reply
unfolding handle_input
handle_input-keys o clocks p s =
    ap (λ c. (check_space c).written) (process_buffer-keys o clocks p s)
    ∙ serve-written o clocks p s
