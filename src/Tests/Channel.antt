-- ===== src/Tests/Channel.antt =====
-- Channels: adding and removing one, and packets of the station.
use rt_thread_esp_hosted.Common.{
  ℕ, ◌≡◌, ◌>>=◌, leb, refl, Bool, true, false, Option, none, some, List, [], ◌∷◌, arith, Buffer,
  length, length-replicate, replicate, sym, ap, ◌∙◌,
}
use rt_thread_esp_hosted.Adapter.{esp_sta_if, esp_hci_if}
use rt_thread_esp_hosted.Port.{Allocator, IsAllocator}
use rt_thread_esp_hosted.Spi.{Spi}
use rt_thread_esp_hosted.Transport.Channel.{
  Channel, Net, no_tx, sta_tx, set_chan, tx_function, fill_channel, free_old,
  transport_drv_add_channel, transport_drv_remove_channel, check_channel, transport_drv_sta_tx,
}
use rt_thread_esp_hosted.Transport.Channel.Network.{Travels, sta_tx_lem}
use rt_thread_esp_hosted.Transport.Channel.Overrun.{sta_tx_overrun}

abbrev spi : Spi
spi = record {
  transport_state = 2;
  to_slave_queue = record { serial = []; bt = []; others = [] };
  from_slave_queue = record { serial = []; bt = []; others = [] };
  sem_to_slave_queue = 0;
  sem_from_slave_queue = 0;
  spi_trans_ready_sem = 0;
  schedule_dummy_tx = false;
  schedule_dummy_rx = false;
  data_ready_pending = false;
  wifi_tx_throttling = 0;
  heap = [];
}

abbrev closed : Net
closed = record { chan_arr = λ i. none; spi = spi }

abbrev station : Channel
station = record {
  ident = 6;
  api_chan = 7;
  if_type = esp_sta_if;
  secure = false;
  tx = sta_tx;
  rx = true;
}

opened : Net
unfolding set_chan
opened = set_chan esp_sta_if (some station) closed

adds :
    transport_drv_add_channel (some 6) 7 esp_sta_if false true true closed
    ≡ some (some station, opened)
unfolding transport_drv_add_channel fill_channel free_old tx_function opened set_chan
adds = refl

-- Bluetooth has no function, but its blank channel stays.
blank_stays :
    (transport_drv_add_channel (some 6) 7 esp_hci_if false true true closed >>= λ r.
    r.1.chan_arr esp_hci_if)
    ≡ some (record station { api_chan = 0; if_type = 0; tx = no_tx; rx = false })
unfolding transport_drv_add_channel fill_channel free_old tx_function set_chan
blank_stays = refl

abbrev heap_after : Option (Bool × Net) → List ℕ
heap_after none = []
heap_after (some r) = r.1.spi.heap

removes : heap_after (transport_drv_remove_channel (some station) opened) ≡ 6 ∷ []
unfolding transport_drv_remove_channel opened set_chan
removes = refl

is_open : check_channel esp_sta_if 7 opened ≡ some tt
unfolding check_channel opened set_chan
is_open = refl

abbrev block : Buffer
block = record { ident = 8; bytes = replicate 1664 9 }

block_size : length block.bytes ≡ 1664
block_size = length-replicate {A = ℕ} 1664 9

malloc : Allocator
malloc n = some (record { ident = 8; bytes = replicate n 9 })

malloc_block : malloc 1664 ≡ some block
unfolding malloc
malloc_block = refl

size_of : Option Buffer → ℕ
size_of none = 0
size_of (some b) = length b.bytes

malloc-IsAllocator : IsAllocator malloc
unfolding malloc size_of
malloc-IsAllocator = record {
  sized = λ n b e. sym (ap {B = ℕ} size_of e) ∙ length-replicate {A = ℕ} n 9;
}

abbrev packet : List ℕ
packet = 1 ∷ 2 ∷ 3 ∷ []

opened_spi : opened.spi ≡ spi
unfolding opened set_chan
opened_spi = refl

sta_tx_lem_example :
    Travels malloc block esp_sta_if packet 3 opened
      (transport_drv_sta_tx true malloc 7 (some packet) 3 opened)
sta_tx_lem_example =
    sta_tx_lem malloc block 7 3 packet opened malloc_block (omega (arith, block_size))
      (is_open, ap (λ (s : Spi). leb 2 s.transport_state) opened_spi)
      (ap (λ (s : Spi). s.wifi_tx_throttling) opened_spi) (omega arith) (omega arith) (omega arith)

abbrev long_packet : List ℕ
long_packet = replicate 1700 1

long_size : length long_packet ≡ 1700
long_size = length-replicate {A = ℕ} 1700 1

sta_tx_overrun_example : transport_drv_sta_tx true malloc 7 (some long_packet) 1700 opened ≡ none
sta_tx_overrun_example =
    sta_tx_overrun true malloc block 7 1700 long_packet opened malloc-IsAllocator malloc_block
      is_open (ap (λ (s : Spi). s.wifi_tx_throttling) opened_spi) (omega arith)
      (omega (arith, long_size))
