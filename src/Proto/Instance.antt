-- ===== src/Proto/Instance.antt =====
-- One concrete serialisation that the assumptions of `Proto` hold of, for the examples: each number
-- is one element of the text, and a list is written behind its length. It is not the wire format.
use crypt_bank.Prelude.{
  ℕ, zero, suc, ◌≡◌, refl, ap, Bool, true, false, Option, none, some, List, [], ◌∷◌, ◌++◌,
  append_assoc, append-nil, length, Bytes,
}
use crypt_bank.Proto.{
  PBlockHeader, PTransactionInput, PTransactionOutput, PTransaction, PBlock, PBlockRecord,
  PCoinRecord, PUndoBlock, Codec, Proto,
}

pub record Layout (A : Type 0) : Type 0 where
  pub write : A → Bytes
  pub read : Bytes → A × Bytes
  pub read-write : (a : A) (rest : Bytes) → read (write a ++ rest) ≡ (a, rest)

pub read_word : Bytes → ℕ × Bytes
read_word [] = (0, [])
read_word (n ∷ rest) = (n, rest)

pub word_law : (a : ℕ) (rest : Bytes) → read_word ((a ∷ []) ++ rest) ≡ (a, rest)
unfolding read_word
word_law a rest = refl

abbrev word : Layout ℕ
word = record { write = λ n. n ∷ []; read = read_word; read-write = word_law }

module _ {A B : Type 0} (f : A → B) (g : B → A) (inv : (a : A) → g (f a) ≡ a) (l : Layout B) where
  pub read_via : Bytes → A × Bytes
  read_via s = (g (l.read s).0, (l.read s).1)

  pub via_law : (a : A) (rest : Bytes) → read_via (l.write (f a) ++ rest) ≡ (a, rest)
  unfolding read_via
  via_law a rest = rw (l.read-write (f a) rest) (cc (inv a))

  abbrev via : Layout A
  via = record { write = λ a. l.write (f a); read = read_via; read-write = via_law }

module _ {A B : Type 0} (k : Layout A) (l : Layout B) where
  pub read_pair : Bytes → (A × B) × Bytes
  read_pair s = let (a, s') = k.read s in let (b, s'') = l.read s' in ((a, b), s'')

  pub pair_law :
      (p : A × B) (rest : Bytes) → read_pair ((k.write p.0 ++ l.write p.1) ++ rest) ≡ (p, rest)
  unfolding read_pair
  pair_law p rest =
      rw (append_assoc (k.write p.0) (l.write p.1) rest)
        (rw (k.read-write p.0 (l.write p.1 ++ rest)) (rw (l.read-write p.1 rest)))

  abbrev pair : Layout (A × B)
  pair = record { write = λ p. k.write p.0 ++ l.write p.1; read = read_pair; read-write = pair_law }

module _ {A : Type 0} (l : Layout A) where
  pub write_all : List A → Bytes
  write_all [] = []
  write_all (x ∷ xs) = l.write x ++ write_all xs

  pub read_all : ℕ → Bytes → List A × Bytes
  read_all zero s = ([], s)
  read_all (suc n) s = let (x, s') = l.read s in let (xs, s'') = read_all n s' in (x ∷ xs, s'')

  pub read_list : Bytes → List A × Bytes
  unfolding read_all
  read_list [] = ([], [])
  read_list (n ∷ s) = read_all n s

  pub write_list : List A → Bytes
  unfolding write_all
  write_list xs = length xs ∷ write_all xs

  all_law : (xs : List A) (rest : Bytes) → read_all (length xs) (write_all xs ++ rest) ≡ (xs, rest)
  unfolding read_all write_all
  all_law [] rest = refl
  all_law (x ∷ xs) rest =
      rw (append_assoc (l.write x) (write_all xs) rest)
        (rw (l.read-write x (write_all xs ++ rest)) (rw (all_law xs rest)))

  pub list_law : (xs : List A) (rest : Bytes) → read_list (write_list xs ++ rest) ≡ (xs, rest)
  unfolding read_list write_list
  list_law xs rest = all_law xs rest

  abbrev list : Layout (List A)
  list = record { write = write_list; read = read_list; read-write = list_law }

pub to_option : {A : Type 0} → List A → Option A
to_option [] = none
to_option (x ∷ xs) = some x

pub of_option : {A : Type 0} → Option A → List A
of_option none = []
of_option (some x) = x ∷ []

pub option_law : {A : Type 0} (o : Option A) → to_option (of_option o) ≡ o
unfolding to_option of_option
option_law none = refl
option_law (some x) = refl

abbrev optional : {A : Type 0} → Layout A → Layout (Option A)
optional l = via of_option to_option option_law (list l)

pub of_flag : Bool → ℕ
of_flag false = 0
of_flag true = 1

pub to_flag : ℕ → Bool
to_flag zero = false
to_flag (suc n) = true

pub flag_law : (b : Bool) → to_flag (of_flag b) ≡ b
unfolding to_flag of_flag
flag_law false = refl
flag_law true = refl

abbrev flag : Layout Bool
flag = via of_flag to_flag flag_law word

infixr 20 ◌⊗◌
abbrev ◌⊗◌ : {A B : Type 0} → Layout A → Layout B → Layout (A × B)
a ⊗ b = pair a b

abbrev header_layout : Layout PBlockHeader
header_layout =
    via
      (λ (h : PBlockHeader). (
        h.version,
        (h.previous_block_hash, (h.merkle_root, (h.difficulty_target, (h.nonce, h.timestamp)))),
      ))
      (λ t. record {
        version = t.0;
        previous_block_hash = t.1.0;
        merkle_root = t.1.1.0;
        difficulty_target = t.1.1.1.0;
        nonce = t.1.1.1.1.0;
        timestamp = t.1.1.1.1.1;
      })
      (λ h. refl) (word ⊗ word ⊗ word ⊗ word ⊗ word ⊗ word)

abbrev input_layout : Layout PTransactionInput
input_layout =
    via (λ (i : PTransactionInput). (i.reference_transaction_hash, (i.utxo_index, i.signature)))
      (λ t. record { reference_transaction_hash = t.0; utxo_index = t.1.0; signature = t.1.1 })
      (λ i. refl) (word ⊗ word ⊗ word)

abbrev output_layout : Layout PTransactionOutput
output_layout =
    via (λ (o : PTransactionOutput). (o.amount, o.public_key))
      (λ t. record { amount = t.0; public_key = t.1 }) (λ o. refl) (word ⊗ word)

abbrev transaction_layout : Layout PTransaction
transaction_layout =
    via
      (λ (t : PTransaction).
        (t.version, (t.transaction_inputs, (t.transaction_outputs, t.lock_time))))
      (λ t. record {
        version = t.0;
        transaction_inputs = t.1.0;
        transaction_outputs = t.1.1.0;
        lock_time = t.1.1.1;
      })
      (λ t. refl) (word ⊗ list input_layout ⊗ list output_layout ⊗ word)

abbrev block_layout : Layout PBlock
block_layout =
    via
      (λ (b : PBlock).
        (b.block_header, (b.transactions, (b.hash, (b.calculate_fees, b.obtain_merkle_root)))))
      (λ t. record {
        block_header = t.0;
        transactions = t.1.0;
        hash = t.1.1.0;
        calculate_fees = t.1.1.1.0;
        obtain_merkle_root = t.1.1.1.1;
      })
      (λ b. refl) (optional header_layout ⊗ list transaction_layout ⊗ word ⊗ word ⊗ word)

abbrev file_layout : Layout (Bytes × (ℕ × ℕ))
file_layout = list word ⊗ word ⊗ word

abbrev block_record_layout : Layout PBlockRecord
block_record_layout =
    via
      (λ (r : PBlockRecord). (
        r.block_header,
        (
          r.height,
          (
            r.num_transactions,
            (
              (r.block_file_stored, (r.block_offset_start, r.block_offset_end)),
              (r.undo_file_stored, (r.undo_offset_start, r.undo_offset_end)),
            ),
          ),
        ),
      ))
      (λ t. record {
        block_header = t.0;
        height = t.1.0;
        num_transactions = t.1.1.0;
        block_file_stored = t.1.1.1.0.0;
        block_offset_start = t.1.1.1.0.1.0;
        block_offset_end = t.1.1.1.0.1.1;
        undo_file_stored = t.1.1.1.1.0;
        undo_offset_start = t.1.1.1.1.1.0;
        undo_offset_end = t.1.1.1.1.1.1;
      })
      (λ r. refl) (optional header_layout ⊗ word ⊗ word ⊗ file_layout ⊗ file_layout)

abbrev coin_record_layout : Layout PCoinRecord
coin_record_layout =
    via
      (λ (c : PCoinRecord).
        (c.version, (c.is_coin_base, (c.height, (c.utxo, (c.amounts, c.public_keys))))))
      (λ t. record {
        version = t.0;
        is_coin_base = t.1.0;
        height = t.1.1.0;
        utxo = t.1.1.1.0;
        amounts = t.1.1.1.1.0;
        public_keys = t.1.1.1.1.1;
      })
      (λ c. refl) (word ⊗ flag ⊗ word ⊗ list word ⊗ list word ⊗ list word)

abbrev undo_block_layout : Layout PUndoBlock
undo_block_layout =
    via (λ (u : PUndoBlock). (u.transaction_hashes, u.undo_coin_records))
      (λ t. record { transaction_hashes = t.0; undo_coin_records = t.1 }) (λ u. refl)
      (list word ⊗ list coin_record_layout)

module _ {A : Type 0} (l : Layout A) (empty : A) where
  pub parse : Bytes → A
  parse [] = empty
  parse (tag ∷ s) = (l.read s).0

  pub parse_law : (a : A) → parse (1 ∷ l.write a) ≡ a
  unfolding parse
  parse_law a = ap (λ (p : A × Bytes). p.0) (rw (append-nil (l.write a)) at (l.read-write a []))

  pub parse_nil : parse [] ≡ empty
  unfolding parse
  parse_nil = refl

abbrev codec : {A : Type 0} (Fits : A → Type 0) (l : Layout A) (empty : A) → Codec Fits empty
codec Fits l empty = record {
  encode = λ a. 1 ∷ l.write a;
  decode = parse l empty;
  decode-encode = λ a fits. parse_law l empty a;
  decode-nil = parse_nil l empty;
}

unfoldable pub word_proto : Proto
unfolding read_word read_via read_pair write_all read_all read_list write_list to_option of_option
    to_flag of_flag parse
word_proto = record {
  header = codec _ header_layout _;
  input = codec _ input_layout _;
  output = codec _ output_layout _;
  transaction = codec _ transaction_layout _;
  block = codec _ block_layout _;
  block_record = codec _ block_record_layout _;
  coin_record = codec _ coin_record_layout _;
  undo_block = codec _ undo_block_layout _;
  encode-block-ne-nil = λ m h set e. cc e;
}
