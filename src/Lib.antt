-- ===== src/Lib.antt =====
-- The firmware of GOLFER, a portable RF survey device (firmware/golfer), modelled for verification.
--
-- A GOLFER hears the telemetry packets of its partner over LoRa, follows the state of the link, reads
-- its own GPS receiver, and shows, sounds and logs what it finds. Paths are below firmware/golfer/src.
--
--   Prelude   the shared names and lemmas: lists, bytes, machine words, Rust's Option and Result
--             chains, UTF-8 and the character classes of the standard library
--   Crc       crc32_ieee of packet.rs and its copy crc32 of system.rs
--   Packet    packet.rs: TelemetryV1 and its validation; Packet.Codec has encode, decode and
--             crc32_details. A frame is a list of bytes
--   Gps       gps.rs: the digit and fixed-point loops (Digits, Decimal, Coordinate), the calendar and
--             the clock (Calendar, Clock), and in State the receive task: a Receiver is the line
--             buffer with the GpsState, on_byte is one turn of the loop of receive_task
--   Buttons   buttons.rs: a round of the polling task samples every button; AudioTest is
--             button_audio_test_task of main.rs
--   Link      main.rs: the packet arm and the watchdog arm of the main loop. The record Link is the
--             loop's local variables, on_packet and on_tick are the arms, and what they ask of
--             storage, display and audio is a list of Requests; Trace has runs of the two arms
--   Timekeeping   main.rs: what the loop does with the UTC of a GPS state, and the deadlines of
--             LOCAL.LOG; the time is an argument
--   Storage   storage.rs: Session is allocate_boot_session with the counter file and the directory
--             scan, Diagnostics is diag with its RAM buffer, and the UTC anchor, RecordLines has the
--             lines of the survey's files and Records the functions that append them, with the
--             checkpoints of log_local_sample, Setup is the system log and the directory, the files and
--             META.TXT of a session, Presence is card_present
--             with send_sd_startup_clocks of spi0_bus.rs
--   System    system.rs: the names, the flash record (Record), and set_name, persist_config and init
--             over the two flash slots (Persist)
--   Audio     audio.rs: tone_config for the PWM, and the task with its signal of routine requests and
--             its queue of UI sounds; a turn is one pass of the task's loop
--   Radio     radio.rs: TxRequest, the commands, Radio with its set-up, and the owner task, whose steps
--             lie between its looks at the command channel, and which stops when the channel of events,
--             which nothing reads, has no room
--   Display   display/mod.rs, display/ui.rs and display/boot_status.rs: Facade has the operations of
--             Display, each with the row of calls on the DrawTarget (Target) that it makes, Ui the
--             general page and the former boot page, BootScreen the boot page
--
-- How they meet: Packet checks a frame with Crc; the receive arm of Link decodes with Packet and
-- sends Requests to Storage, Display and Audio; the
-- packets that it takes are those that the task of Radio sends; System seals its record with Crc.
--
-- Conventions. Numbers are unbounded, and an operation of Rust that wraps, saturates or checks is
-- written out with the limit of its type. Signed fields are integers. A text is the list of its
-- bytes. A time is in milliseconds, where the code has ticks of a microsecond, and a difference of
-- times stops at 0, where duration_since would panic. Every loop is structural recursion over its bytes, digits, samples or entries, or over
-- its fixed count, as the 8 attempts of 16 polls in card_present, but for the
-- divider loop of Audio, whose 254 steps of fuel are those that its own test on the divider allows,
-- and the deadline loop of Timekeeping, where a second of fuel for each second that was missed and
-- one more is enough.
--
-- Parameters, for code of other packages: the flash driver of embassy-rp (System.FlashDriver), the
-- FAT volume of embedded-sdmmc (Storage.Session.SurveyDirectory, Storage.Diagnostics.DebugFile), the
-- SPI bus with the card's chip select (Storage.Presence.SpiBus), the open files of a survey
-- (Storage.Records.VolumeManager), the handles of its set-up (Storage.Setup.FileSystem), lora-phy with the clock (Radio.LoraPhy), and the draw target of
-- embedded-graphics with the glyphs of its font (Display.Target). What is relied on is stated as a
-- record of laws beside each: an erase or a write leaves other bytes alone, a file is read back as
-- it was written, a directory that opens is listed, a transfer does not move the chip select, a flush
-- makes a file durable, an opening and a close change the open handles by theirs alone, a text inks no pixel outside the box of its glyphs. Of lora-phy nothing is
-- relied on. The digits of a number are at most 20, which is enough for a u64.
--
-- Not modelled: the drivers of the radio, the display, the PWM and the SPI bus, the text of defmt
-- messages, the LED, and Storage::new, which initializes the card and calls the parts that are modelled.
pub mod Prelude
pub mod Crc
pub mod Packet
pub mod Radio
pub mod Gps
pub mod Buttons
pub mod Storage
pub mod System
pub mod Timekeeping
pub mod Display
pub mod Audio
pub mod Link
