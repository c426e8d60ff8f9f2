-- ===== src/Examples/Heap.antt =====
-- A foundation library with a memory: every handle is an address in it, and a cipher keeps one secret. A content
-- is its own plaintext, in two pieces.
use mkey_rs.Virgil.Decrypt.Serving.{
  Fact, Keeps, Scheme, Serves, block, cipher, clean, drawing, drawing_provider, holds, imported,
  processed, provided, provider, seeded, source, started, stored, viewed,
}
use mkey_rs.Virgil.Library.{Called, Library, as_usize, returns}
use mkey_rs.Prelude.{
  Bytes, [], ap, arith, drop, false, if◌then◌else◌, leb, length, refl, some, suc, take, true, ℕ,
  ◌-◌, ◌==◌, ◌∙◌, ◌≡◌, ◌≤◌, ◌^◌,
}

pub record Heap : Type 0 where
  pub last : ℕ
  pub memory : ℕ → Bytes
  pub secret : Bytes

abbrev pub scheme : Scheme
scheme = record {
  is_key = λ der. true;
  accepts = λ der id info. some der;
  decipher = λ secret content. some (take 3 content, drop 3 content);
  room = λ n. n;
}

-- The next address is written.
abbrev put : Bytes → Heap → Heap
put bytes h = record h {
  last = suc h.last;
  memory = λ p. if p == suc h.last then bytes else h.memory p;
}

abbrev same : {A : Type 0} → A → Heap → Called A × Heap
same a h = (returns a, h)

abbrev next : Heap → Called ℕ × Heap
next h = (returns (suc h.last), h)

abbrev made : Bytes → Heap → Called ℕ × Heap
made bytes h = (returns (suc h.last), put bytes h)

-- The address that `as usize` has made of an address.
abbrev address : ℕ → ℕ
address q = if leb (2 ^ 64 - 2 ^ 31) q then q - (2 ^ 64 - 2 ^ 32) else q

abbrev process : ℕ → ℕ → ℕ → Heap → Called ℕ × Heap
process c view b h =
    (returns 0, record (put (take 3 (h.memory view)) h) { secret = drop 3 (h.memory view) })

abbrev pub heap : Library Heap
heap = record {
  instantiate = returns (record { last = 0; memory = λ p. []; secret = [] });
  memory_write = λ p bytes h. (returns tt, put bytes h);
  memory_read = λ p n h. returns (h.memory (address p));
  malloc = λ n. next;
  buffer_new_with_capacity = λ n. next;
  buffer_delete = λ b. same tt;
  buffer_bytes = λ b. same b;
  buffer_len = λ b h. same (length (h.memory b)) h;
  data_ctx_size = same 8;
  data_init = λ ctx p n h. (returns tt, put (h.memory p) h);
  error_ctx_size = same 8;
  error_reset = λ e. same tt;
  error_status = λ e. same 0;
  ctr_drbg_new = same 1;
  ctr_drbg_delete = λ r. same tt;
  ctr_drbg_setup_defaults = λ r. same 0;
  key_provider_new = same 2;
  key_provider_delete = λ k. same tt;
  key_provider_setup_defaults = λ k. same 0;
  key_provider_use_random = λ k r. same tt;
  key_provider_generate_private_key = λ a b c. same 0;
  key_provider_import_private_key = λ p view e h. made (h.memory view) h;
  key_provider_import_public_key = λ a b c. same 0;
  key_provider_export_public_key = λ a b c. same 0;
  key_provider_exported_private_key_len = λ a b. same 0;
  key_provider_export_private_key = λ a b c. same 0;
  ecc_private_key_extract_public_key = λ k. same 0;
  recipient_cipher_new = same 9;
  recipient_cipher_delete = λ c. same tt;
  recipient_cipher_use_random = λ c r. same tt;
  recipient_cipher_start_decryption_with_key =
      λ c id k info h. (returns 0, record h { secret = h.memory k });
  recipient_cipher_decryption_out_len = λ c n. same n;
  recipient_cipher_process_decryption = process;
  recipient_cipher_finish_decryption = λ c b h. (returns 0, put h.secret h);
}

-- Where a fact can be read: at an address, in the secret, or nowhere.
pub data Place : Type 0 where
  at_address : ℕ → Bytes → Place
  in_secret : Bytes → Place
  nowhere : Place

abbrev pub place : Fact → Place
place (block p n) = nowhere
place (stored p bytes) = at_address p bytes
place (viewed p bytes) = at_address p bytes
place (imported p bytes) = at_address p bytes
place (holds p bytes) = at_address p bytes
place (started c bytes) = in_secret bytes
place (processed c bytes) = in_secret bytes
place (source r) = nowhere
place (seeded r) = nowhere
place (provider p) = nowhere
place (drawing_provider p) = nowhere
place (provided p) = nowhere
place (clean e) = nowhere
place (cipher c) = nowhere
place (drawing c) = nowhere

abbrev pub Found : Heap → Place → Type 0
Found h (at_address p bytes) = (h.memory p ≡ bytes) × (p ≤ h.last)
Found h (in_secret bytes) = h.secret ≡ bytes
Found h nowhere = Unit

abbrev pub Knows : Heap → Fact → Type 0
Knows h x = Found h (place x)

abbrev pub IsNext : Heap → ℕ → ℕ → Type 0
IsNext h p n = p ≡ suc h.last

put-kept :
    (bytes : Bytes) (h : Heap) (p : ℕ) (old : Bytes)
    → Found h (at_address p old)
    → Found (put bytes h) (at_address p old)
put-kept bytes h p old (e, le) =
    let apart : (p == suc h.last) ≡ false = ground arith in (rw apart e, omega arith)

put-keeps : (bytes : Bytes) (h : Heap) (x : Place) → Found h x → Found (put bytes h) x
put-keeps bytes h (at_address p old) k = put-kept bytes h p old k
put-keeps bytes h (in_secret s) k = k
put-keeps bytes h nowhere k = tt

put-there :
    (bytes : Bytes) (h : Heap) (p : ℕ) → p ≡ suc h.last → Found (put bytes h) (at_address p bytes)
put-there bytes h p e =
    let here : (p == suc h.last) ≡ true = ground arith in (rw here refl, omega arith)

address-as_usize : (p : ℕ) → address (as_usize p) ≡ p
address-as_usize p = ground arith

-- What is written next is found, and what was found is kept.
writes :
    (bytes : Bytes) (p : ℕ) (h : Heap)
    → p ≡ suc h.last
    → Found (put bytes h) (at_address p bytes) × Keeps Knows h (put bytes h)
writes bytes p h e = (put-there bytes h p e, λ x. put-keeps bytes h (place x))

viewing :
    (ctx p : ℕ) (bytes : Bytes) (h : Heap)
    → ctx ≡ suc h.last
    → Found h (at_address p bytes)
    → Found (put (h.memory p) h) (at_address ctx bytes) × Keeps Knows h (put (h.memory p) h)
viewing ctx p bytes h e (q, le) =
    let (there, kept) = writes (h.memory p) ctx h e in ((there.0 ∙ q, there.1), kept)

started_with :
    (k : ℕ) (der id info s : Bytes) (h : Heap)
    → Found h (at_address k der)
    → scheme.accepts der id info ≡ some s
    → h.memory k ≡ s
started_with k der id info s h (q, le) e = q ∙ some-injective der s e
  where
    some-injective : (x y : Bytes) → some x ≡ some y → x ≡ y
    some-injective x y e = cc

pieces :
    (content first rest s : Bytes)
    → scheme.decipher s content ≡ some (first, rest)
    → (take 3 content ≡ first) × (drop 3 content ≡ rest)
pieces content first rest s e =
    let same : (take 3 content, drop 3 content) ≡ (first, rest) =
      some-injective (take 3 content, drop 3 content) (first, rest) e in
    (ap (λ x. x.0) same, ap (λ x. x.1) same)
  where
    some-injective : (x y : Bytes × Bytes) → some x ≡ some y → x ≡ y
    some-injective x y e = cc

processes :
    (view b : ℕ) (content first rest s : Bytes) (h : Heap)
    → Found h (at_address view content)
    → b ≡ suc h.last
    → scheme.decipher s content ≡ some (first, rest)
    → Found (process 0 view b h).1 (at_address b first)
      × Found (process 0 view b h).1 (in_secret rest)
processes view b content first rest s h (q, le) e opens =
    let (e1, e2) = pieces content first rest s opens in
    let there = put-there (take 3 (h.memory view)) h b e in
    ((there.0 ∙ ap (λ (x : Bytes). take 3 x) q ∙ e1, there.1), ap (λ (x : Bytes). drop 3 x) q ∙ e2)

finishes :
    (b : ℕ) (rest : Bytes) (h : Heap)
    → Found h (in_secret rest)
    → b ≡ suc h.last
    → Found (put h.secret h) (at_address b rest)
finishes b rest h k e = let there = put-there h.secret h b e in (there.0 ∙ k, there.1)

pub heap-Serves : Serves heap scheme Knows IsNext IsNext
heap-Serves = record {
  begins = (record { last = 0; memory = λ p. []; secret = [] }, refl);
  data_size = 8;
  error_size = 8;
  data-IsSize = (omega arith, omega arith);
  error-IsSize = (omega arith, omega arith);
  data_size-Gives = λ h. (8, h, refl, (refl, λ x k. k));
  error_size-Gives = λ h. (8, h, refl, (refl, λ x k. k));
  malloc-Gives = λ n h size. (suc h.last, h, refl, (ground arith, refl, tt, λ x k. k));
  write-Gives = λ p bytes h e. (tt, put bytes h, refl, writes bytes p h e);
  init-Gives = λ ctx p bytes h e k. (tt, put (h.memory p) h, refl, viewing ctx p bytes h e k);
  source-Gives = λ h. (1, h, refl, (tt, λ x k. k));
  seed-Succeeds = λ r h k. (0, h, refl, (refl, (tt, λ x k. k)));
  provider-Gives = λ h. (2, h, refl, (tt, λ x k. k));
  provider_random-Gives = λ p r h k l. (tt, h, refl, (tt, λ x k. k));
  provide-Succeeds = λ p h k. (0, h, refl, (refl, (tt, λ x k. k)));
  reset-Gives = λ e h k. (tt, h, refl, (tt, λ x k. k));
  import-Gives = λ p view e der h a b d g.
      let (there, kept) = viewing (suc h.last) view der h refl b in
      (suc h.last, put (h.memory view) h, refl, (ground arith, there, kept));
  status-Succeeds = λ e h k. (0, h, refl, (refl, λ x k. k));
  cipher-Gives = λ h. (9, h, refl, (tt, λ x k. k));
  cipher_random-Gives = λ c r h k l. (tt, h, refl, (tt, λ x k. k));
  start-Succeeds = λ c iv k fv id der info s h a b d g e.
      (0, record h { secret = h.memory k }, refl, (refl, started_with k der id info s h d e));
  room-Gives = λ c n bytes h k. (n, h, refl, (refl, λ x k. k));
  new-Gives = λ n h size. (
    suc h.last,
    h,
    refl,
    (ground arith, refl, λ x k. k, λ other bytes k e. omega (arith, k.1, e)),
  );
  process-Succeeds = λ c view b n s content first rest h a k e le opens.
      (0, (process c view b h).1, refl, (refl, processes view b content first rest s h k e opens));
  finish-Succeeds = λ c b n rest h k e le. (
    0,
    put h.secret h,
    refl,
    (refl, (finishes b rest h k e, λ other bytes apart old. put-kept h.secret h other bytes old)),
  );
  bytes-Gives = λ b bytes h k. (b, h, refl, (k, λ x k. k));
  len-Gives =
      λ b bytes h k. (length (h.memory b), h, refl, (ap (λ (x : Bytes). length x) k.0, λ x k. k));
  read-Gives =
      λ p bytes h k. ap (λ (x : Bytes). returns x) (ap h.memory (address-as_usize p) ∙ k.0);
  delete-knows = λ b other bytes h apart k. k;
}
