-- ===== src/Crypto/Tests.antt =====
-- SHA-256 of the published test messages, and the program's own checksum of them.
use Prim.Native.Char.{code}
use Prim.Native.String.{String}
use crypt_bank.Prelude.{◌≡◌, refl, [], ◌∷◌, replicate, Bytes}
use crypt_bank.Crypto.{final_words}
use crypt_bank.Crypto.Constants.{constants}

codes : String → Bytes
codes String.[] = []
codes (String.◌∷◌ c s) = code c ∷ codes s

sha_abc : final_words (replicate 64 0xaa) (codes "abc") ≡ record {
  w0 = 0xba7816bf;
  w1 = 0x8f01cfea;
  w2 = 0x414140de;
  w3 = 0x5dae2223;
  w4 = 0xb00361a3;
  w5 = 0x96177a9c;
  w6 = 0xb410ff61;
  w7 = 0xf20015ad;
}
unfolding final_words codes constants
sha_abc = refl

-- Two blocks: 56 bytes of text leave no room for the length.
sha_two_blocks :
    final_words
      (replicate 64 0xaa)
      (codes "abcdbcdecdefdefgefghfghighijhijkijkljklmklmnlmnomnopnopq")
    ≡ record {
      w0 = 0x248d6a61;
      w1 = 0xd20638b8;
      w2 = 0xe5c02693;
      w3 = 0x0c3e6039;
      w4 = 0xa33ce459;
      w5 = 0x64ff2167;
      w6 = 0xf6ecedd4;
      w7 = 0x19db06c1;
    }
unfolding final_words codes constants
sha_two_blocks = refl
