-- ===== src/Tests.antt =====
-- Tests on concrete inputs, and the theorems applied at them.
mod Firmware
mod Client
mod Wire
mod Server
mod Life
mod Wav
mod Device
mod Whisper
mod Network
mod Posix
