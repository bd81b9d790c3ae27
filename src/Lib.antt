-- ===== src/Lib.antt =====
-- The host side of ESP-Hosted for RT-Thread: an ESP chip works as the network card of a host, and the
-- host reaches it over SPI. This library models the paths that a packet and a remote call take through
-- the host's code.
--
-- The parts, from the bus up:
--   * Adapter: what host and slave share, esp-hosted/common/include/adapter.h: the numbers of the
--     interfaces, the packet handle, and in Adapter/Header the payload header in memory and
--     compute_checksum.
--   * Port: hosted_realloc of porting/port/source/os_wrapper.c, and the allocator under it.
--   * Spi: esp-hosted/host/drivers/transport/spi/spi_drv.c. Spi has the state, esp_hosted_tx and
--     get_next_tx_buffer, Spi/Rx process_spi_rx_buf, Spi/Transaction the transaction, the interrupts
--     and the task. Packets go to the bus by three queues, and come from it by three queues.
--   * Serial: the path of the RPC messages. Serial/Ll is serial_ll_rx_handler of
--     esp-hosted/host/drivers/serial/serial_ll_if.c, which puts fragments together and queues whole
--     messages; Serial/Ll/Lifecycle is the rest of that file. Serial/Drv is serial_drv.c beside it,
--     which takes the data out of a message, Serial/Tlv the envelope of
--     esp-hosted/host/drivers/virtual_serial_if/serial_if.c, and Serial/If its transport_pserial_send,
--     with the path of a message down to the SPI driver.
--   * Rpc: esp-hosted/host/drivers/rpc/core/rpc_core.c. Rpc/Table has the tables that link a response to
--     its request, Rpc/Core rpc_send_req, Rpc/Core/Tx what the sending thread does, the timeout and
--     the wait for a response, Rpc/Core/Rx process_rpc_rx_msg and the callbacks of events, and
--     Rpc/Core/Lifecycle rpc_core_init and rpc_core_deinit with the serial interface's start under them.
--   * Transport: esp-hosted/host/drivers/transport/transport_drv.c, with send_slave_config.
--     Transport/Init is process_init_event and what leads to it, Transport/Channel the channels with
--     transport_drv_sta_tx and the other functions, Transport/Reconfigure the wait for the
--     slave, and Transport/RxTask the receiving task of the SPI driver, spi_process_rx_task, which
--     takes packets from the receive queues to the serial interface, the network or Transport/Init.
--   * Mempool: esp-hosted/host/drivers/mempool/mempool.c, the pool of blocks. Mempool/Ownership has
--     the specification of an allocator beside it.
--   * Util: esp-hosted/host/utils/util.c, addresses in text form and the comparison of buffers.
--   * Slave: the other end, in esp-hosted/slave/main. Slave/Pserial is rpc_req_handler of
--     protocomm_pserial.c, Slave/Config process_priv_pkt of app_main.c, Slave/Startup
--     generate_startup_event of spi_slave_api.c, and Slave/Spi most of that file: esp_spi_write,
--     get_next_tx_buffer, and in Slave/Spi/Task esp_spi_read and the task that keeps a transaction
--     queued for the host.
--   * Common: Booleans on numbers, lists, and memory. Tests: runs at concrete inputs.
--
-- How the code is read: a function of C is a function under the same name on a record of the static
-- variables of its file. Memory is a list of bytes, a pointer to a block its number, and none the
-- NULL pointer. The result is an Option where the code can fault: none is an access outside a buffer, a
-- NULL pointer that is followed, a block that is used after its free, or an assertion that fails; where a
-- comment says so it is also a wait that does not end. Freed blocks are logged in a heap, semaphores and
-- callbacks of the RPC core in its state. Numbers are natural, with the wrap-around of 8, 16 or 32 bits
-- written out. Loops over a buffer or a table are structural recursion; the loops
-- over the fields of an event or a request have one more unit of fuel than their buffer has bytes, and every
-- round passes 2 or 3 of them; the wait for the slave has one more than the retries that are left. What the
-- kernel's allocator, queues, semaphores and timers answer, what the bus transfers, and what the
-- protobuf library gives are arguments; a queue that refuses an element is a Boolean.
--
-- Not modelled: the threads' outer loops, of which a round is a function, and the start of the SPI driver; the copies between
-- application structures and protobuf messages (rpc_req.c, rpc_rsp.c, rpc_evt.c, rpc_wrap.c), whose
-- results are arguments; generated protobuf code; the other transports (SDIO, SPI half duplex, UART);
-- Bluetooth; the rest of the slave's firmware; the network device, statistics and debug output.
pub mod Common
pub mod Serial
pub mod Adapter
pub mod Port
pub mod Spi
mod Tests
pub mod Rpc
pub mod Slave
pub mod Transport
pub mod Util
pub mod Mempool
