-- ===== src/Validate/Accepted.antt =====
-- What the validator of chat requests accepts.
use llama_net.Prelude.{
  some_inj, ℕ, ◌+◌, ◌≤◌, ◌≡◌, ◌⊎◌, refl, sym, ◌∙◌, ap, subst, Bool, true, false, Option, none, some,
  String, count, arith, inl, inr, Bool-cases, Option-cases, eq_iff,
}
use llama_net.Prelude.Int.{ℤ, pos, ◌≤ℤ◌}
use llama_net.Json
use llama_net.Json.{Value, null, bool, int, real, str, arr, obj, Items, nil, cons, Fields}
use llama_net.Validate.Checks.{
  Checked, passed, invalid, type_error, and_then, max_message_count, max_message_chars,
  max_total_context_chars, max_max_tokens, given, check_max_tokens, check_range,
}
use llama_net.Validate.Requests.{
  Tally, chars, refused, is_role, is_assistant, content_length, check_message, check_messages,
  check_message_list, validate_chat_request,
}

-- A message: an object with one of the roles, and a text of n characters as its content, or null where
-- the role is "assistant".
pub record GoodMessage (v : Value) (n : ℕ) : Type 0 where
  pub fields : Fields
  pub is_object : v ≡ obj fields
  pub has_role : is_role (Json.get_or fields "role" (str "")) ≡ true
  pub content :
      ((s : String) × (Json.get_or fields "content" (str "") ≡ str s) × (n ≡ count s))
      ⊎ ((Json.get_or fields "content" (str "") ≡ null)
          × (Json.get_or fields "role" (str "") ≡ str "assistant")
          × (n ≡ 0))
  pub short : n ≤ max_message_chars

-- Messages with n characters in all.
pub data GoodMessages : Items → ℕ → Type 0 where
  no_messages : GoodMessages nil 0
  one_more :
      {v : Value} {xs : Items} {n m : ℕ}
      → GoodMessage v n
      → GoodMessages xs m
      → GoodMessages (cons v xs) (n + m)

is_assistant_lem : (role : Value) → is_assistant role ≡ true → role ≡ str "assistant"
is_assistant_lem (str r) h = ground (arith, h, eq_iff r "assistant")
is_assistant_lem null h = absurd (ground arith)
is_assistant_lem (bool b) h = absurd (ground arith)
is_assistant_lem (int n) h = absurd (ground arith)
is_assistant_lem (real x) h = absurd (ground arith)
is_assistant_lem (arr xs) h = absurd (ground arith)
is_assistant_lem (obj f) h = absurd (ground arith)

content_lem :
    (b : Bool) (c : Value) (n : ℕ)
    → content_length b c ≡ some n
    → ((s : String) × (c ≡ str s) × (n ≡ count s)) ⊎ ((c ≡ null) × (b ≡ true) × (n ≡ 0))
content_lem b (str s) n h = inl (s, refl, ground (arith, h))
content_lem true null n h = inr (refl, refl, ground (arith, h))
content_lem false null n h = absurd (ground arith)
content_lem true (bool x) n h = absurd (ground arith)
content_lem true (int x) n h = absurd (ground arith)
content_lem true (real x) n h = absurd (ground arith)
content_lem true (arr xs) n h = absurd (ground arith)
content_lem true (obj f) n h = absurd (ground arith)
content_lem false (bool x) n h = absurd (ground arith)
content_lem false (int x) n h = absurd (ground arith)
content_lem false (real x) n h = absurd (ground arith)
content_lem false (arr xs) n h = absurd (ground arith)
content_lem false (obj f) n h = absurd (ground arith)

check_message_lem : (v : Value) (n : ℕ) → check_message v ≡ chars n → GoodMessage v n
unfolding check_message
check_message_lem (obj f) n h =
    let role = Json.get_or f "role" (str "") in
    let c = Json.get_or f "content" (str "") in
    elim (Bool-cases (is_role role)) [
      | inr g ↦ absurd (ground (arith, g, h))
      | inl g ↦ elim (Option-cases (content_length (is_assistant role) c)) [
        | inl q ↦ absurd (ground (arith, g, h, q))
        | inr (m, q) ↦
            let e : (m ≡ n) × (m ≤ max_message_chars) = ground (arith, g, h, q) in
            record {
              fields = f;
              is_object = refl;
              has_role = g;
              content = elim (content_lem (is_assistant role) c m q) [
                | inl (s, a, b) ↦ inl (s, a, sym e.0 ∙ b)
                | inr (a, b, d) ↦ inr (a, is_assistant_lem role b, sym e.0 ∙ d)
              ];
              short = omega (arith, e);
            }
      ]
    ]
check_message_lem (str r) n h = absurd (ground arith)
check_message_lem null n h = absurd (ground arith)
check_message_lem (bool b) n h = absurd (ground arith)
check_message_lem (int k) n h = absurd (ground arith)
check_message_lem (real x) n h = absurd (ground arith)
check_message_lem (arr xs) n h = absurd (ground arith)

data TallyWay (t : Tally) : Type 0 where
  counted : (n : ℕ) → t ≡ chars n → TallyWay t
  ended : (e : String) → t ≡ refused e → TallyWay t

tally_way : (t : Tally) → TallyWay t
tally_way (chars n) = counted n refl
tally_way (refused e) = ended e refl

check_messages_lem : (xs : Items) (n : ℕ) → check_messages xs ≡ chars n → GoodMessages xs n
unfolding check_messages
check_messages_lem nil n h = subst (GoodMessages nil) (ground (arith, h)) no_messages
check_messages_lem (cons v xs) n h = elim (tally_way (check_message v)) [
  | ended e q ↦ absurd (ground (arith, h, q))
  | counted a q ↦ elim (tally_way (check_messages xs)) [
    | ended e r ↦ absurd (ground (arith, h, q, r))
    | counted b r ↦
        subst (GoodMessages (cons v xs)) (ground (arith, h, q, r))
          (one_more (check_message_lem v a q) (check_messages_lem xs b r))
  ]
]

-- The messages of an accepted request.
pub record GoodList (v : Value) : Type 0 where
  pub items : Items
  pub total : ℕ
  pub is_list : v ≡ arr items
  pub at_least_one : 1 ≤ Json.length items
  pub at_most : Json.length items ≤ max_message_count
  pub good : GoodMessages items total
  pub total_short : total ≤ max_total_context_chars

check_list_lem : (v : Value) → check_message_list v ≡ passed → GoodList v
unfolding check_message_list
check_list_lem (arr nil) h = absurd (ground (arith, h))
check_list_lem (arr (cons v xs)) h = elim (tally_way (check_messages (cons v xs))) [
  | ended e q ↦ absurd (ground (arith, h, q))
  | counted n q ↦ record {
    items = cons v xs;
    total = n;
    is_list = refl;
    at_least_one = unfold Json.length in omega arith;
    at_most = ground (arith, h, q);
    good = check_messages_lem (cons v xs) n q;
    total_short = ground (arith, h, q);
  }
]
check_list_lem (str s) h = absurd (ground (arith, h))
check_list_lem (obj f) h = absurd (ground (arith, h))
check_list_lem null h = absurd (ground (arith, h))
check_list_lem (bool b) h = absurd (ground (arith, h))
check_list_lem (int k) h = absurd (ground (arith, h))
check_list_lem (real x) h = absurd (ground (arith, h))

and_then_lem : (c d : Checked) → and_then c d ≡ passed → (c ≡ passed) × (d ≡ passed)
and_then_lem passed d h = (refl, h)
and_then_lem (invalid s e) d h = absurd (ground arith)
and_then_lem type_error d h = absurd (ground arith)

-- A number of tokens that is given is whole, and from 1 to 16384.
abbrev pub GoodTokens : Option Value → Type 0
GoodTokens o =
    (v : Value)
    → o ≡ some v
    → (n : ℤ) × (Json.as_int v ≡ some n) × (pos 1 ≤ℤ n) × (n ≤ℤ pos max_max_tokens)

pub check_max_tokens_lem : (o : Option Value) → check_max_tokens o ≡ passed → GoodTokens o
unfolding check_max_tokens
check_max_tokens_lem none h v e = absurd (ground (arith, e))
check_max_tokens_lem (some w) h v e = elim (Option-cases (Json.as_int w)) [
  | inl q ↦ absurd (ground (arith, h, q))
  | inr (n, q) ↦
      (n, ap Json.as_int (some_inj (sym e)) ∙ q, ground (arith, h, q), ground (arith, h, q))
]

-- A number that is given does not lie below 0 or above the limit. (NaN does neither.)
abbrev pub GoodRange : ℕ → Option Value → Type 0
GoodRange limit o =
    (v : Value)
    → o ≡ some v
    → (x : Json.Real) × (Json.as_number v ≡ some x)
      × (Json.below x 0 ≡ false)
      × (Json.above x limit ≡ false)

check_range_lem : (limit : ℕ) (o : Option Value) → check_range limit o ≡ passed → GoodRange limit o
unfolding check_range
check_range_lem limit none h v e = absurd (ground (arith, e))
check_range_lem limit (some w) h v e = elim (Option-cases (Json.as_number w)) [
  | inl q ↦ absurd (ground (arith, h, q))
  | inr (x, q) ↦
      (x, ap Json.as_number (some_inj (sym e)) ∙ q, ground (arith, h, q), ground (arith, h, q))
]

pub record GoodChat (body : Fields) : Type 0 where
  pub messages : GoodList (Json.get_or body "messages" (arr nil))
  pub tokens : GoodTokens (given body "max_tokens")
  pub temperature : GoodRange 2 (given body "temperature")
  pub top_p : GoodRange 1 (given body "top_p")

-- A chat request that the validator accepts has 1 to 50 messages, each an object with one of the five
-- roles and a text as content (or null, of an assistant) of at most 100000 characters, with at most
-- 200000 in all; its max_tokens, if given and not null, is a whole number from 1 to 16384; and its
-- temperature and top_p, if given and not null, are numbers that do not lie below 0 or above 2 and 1.
pub validate_chat_request-GoodChat :
    (body : Fields) → validate_chat_request body ≡ passed → GoodChat body
unfolding validate_chat_request
validate_chat_request-GoodChat body h =
    let (a, r) = and_then_lem (check_message_list (Json.get_or body "messages" (arr nil))) _ h in
    let (b, s) = and_then_lem (check_max_tokens (given body "max_tokens")) _ r in
    let (c, d) = and_then_lem (check_range 2 (given body "temperature")) _ s in
    record {
      messages = check_list_lem (Json.get_or body "messages" (arr nil)) a;
      tokens = check_max_tokens_lem (given body "max_tokens") b;
      temperature = check_range_lem 2 (given body "temperature") c;
      top_p = check_range_lem 1 (given body "top_p") d;
    }
